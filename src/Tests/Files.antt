-- ===== src/Tests/Files.antt =====
-- A folder with one file, streamed to another disk, and one with a pipe.
use serpentine.Prelude.{
  ℕ, zero, suc, ◌≡◌, refl, Bool, true, false, Option, none, some, List, [], ◌∷◌, ◌++◌, length, ◌==◌,
  nat_eq, list_eq, if◌then◌else◌, arith,
}
use serpentine.Prelude.Outcome.{ok, err}
use serpentine.Internal.Frames.{unexpected_eof}
use serpentine.Internal.Files.{
  Bytes, FileSystemEntryHeader, file, folder, Codec, PathLib, Metadata, is_file, is_dir, special,
  DirEntry, Disk, Target, frame, absolute_path_to_item, kept, read_disk_to_filesystem_stream,
  read_filesystem_stream_to_disk,
}
use serpentine.Internal.Files.Trees.{
  Tree, leaf, branch, no_entries, entry_cons, Holds, place, stream,
}
use serpentine.Internal.Files.Reads.{
  leaving, read_filesystem_stream_to_disk-stream,
  read_filesystem_stream_to_disk-read_disk_to_filesystem_stream,
}

abbrev codec : Codec
codec = record { to_stdvec = to_bytes; from_bytes = of_bytes }
  where
    to_bytes : FileSystemEntryHeader → Bytes
    to_bytes (file name length) = 0 ∷ length ∷ name
    to_bytes (folder name entries) = 1 ∷ entries ∷ name

    of_bytes : Bytes → Option FileSystemEntryHeader
    of_bytes (zero ∷ length ∷ name) = some (file name length)
    of_bytes (suc k ∷ entries ∷ name) = some (folder name entries)
    of_bytes _ = none

-- The slash is 47; here a relative path has one name.
abbrev join : Bytes → Bytes → Bytes
join [] b = b
join (x ∷ a) b = (x ∷ a) ++ 47 ∷ b

abbrev last_name : Bytes → Option Bytes
last_name [] = none
last_name (x ∷ a) = some (x ∷ a)

abbrev paths : PathLib
paths = record { join = join; file_name = last_name; parent = λ a. none }

-- The folder 9 holds the item 97.
abbrev entry : DirEntry ℕ
entry = record { path = 9 ∷ 47 ∷ 97 ∷ []; directory = ok false; file_name = 97 ∷ [] }

abbrev disk_with : Metadata → Disk ℕ
disk_with metadata = record {
  metadata = λ path. if path == (9 ∷ []) then ok is_dir else ok metadata;
  contents = λ path. ok (7 ∷ 8 ∷ []);
  read_dir = λ path. ok (ok entry ∷ []);
}

-- The calls made, in order.
abbrev target : Target ℕ (List Bytes)
target = record {
  create_dir_all = λ path calls. ok (calls ++ (0 ∷ path) ∷ []);
  open_truncated = λ permissive path calls. ok (calls ++ (1 ∷ path) ∷ []);
  write_all = λ path contents calls. ok (calls ++ (2 ∷ contents) ∷ []);
}

abbrev everything : Bytes → Bool → Bool
everything path directory = true

abbrev tree : Tree
tree = branch [] (entry_cons (leaf (97 ∷ []) (7 ∷ 8 ∷ [])) no_entries)

sent :
    read_disk_to_filesystem_stream paths codec (disk_with (is_file 2)) (9 ∷ []) everything 2 [] []
    ≡ ok (stream codec tree)
unfolding read_disk_to_filesystem_stream stream
sent = refl

-- A pipe is counted in its folder's header and has no entry in the stream.
pipe :
    read_disk_to_filesystem_stream paths codec (disk_with special) (9 ∷ []) everything 2 [] []
    ≡ ok (2 ∷ 0 ∷ 0 ∷ 0 ∷ 0 ∷ 0 ∷ 0 ∷ 0 ∷ 1 ∷ 1 ∷ [])
unfolding read_disk_to_filesystem_stream
pipe = refl

pipe_read :
    read_filesystem_stream_to_disk paths codec target true 2
      (5 ∷ [])
      (2 ∷ 0 ∷ 0 ∷ 0 ∷ 0 ∷ 0 ∷ 0 ∷ 0 ∷ 1 ∷ 1 ∷ [], [])
    ≡ err (frame unexpected_eof)
unfolding read_filesystem_stream_to_disk
pipe_read = refl

read_filesystem_stream_to_disk-stream_example :
    read_filesystem_stream_to_disk paths codec target true 2
      (5 ∷ [])
      (stream codec tree ++ 3 ∷ [], [])
    ≡ leaving (3 ∷ []) (place paths target true tree (5 ∷ []) [])
read_filesystem_stream_to_disk-stream_example =
    read_filesystem_stream_to_disk-stream paths codec target true tree 2 (5 ∷ []) (3 ∷ []) []
      (omega arith) ((refl, omega arith), ((refl, omega arith), tt))

tree-Holds : Holds paths (disk_with (is_file 2)) (9 ∷ []) everything [] tree
unfolding absolute_path_to_item kept
tree-Holds = (refl, refl, (entry ∷ [], ((ok entry ∷ [], refl, refl), ((refl, refl, refl), tt))))

read_filesystem_stream_to_disk-read_disk_to_filesystem_stream_example :
    (bytes : Bytes) × (read_disk_to_filesystem_stream paths codec
        (disk_with (is_file 2))
        (9 ∷ [])
        everything
        2
        []
        []
      ≡ ok bytes)
    × (read_filesystem_stream_to_disk paths codec target true 2 (5 ∷ []) (bytes, [])
        ≡ leaving [] (place paths target true tree (5 ∷ []) []))
read_filesystem_stream_to_disk-read_disk_to_filesystem_stream_example =
    read_filesystem_stream_to_disk-read_disk_to_filesystem_stream paths codec target true
      (disk_with (is_file 2)) everything (9 ∷ []) tree 2 (5 ∷ []) [] (omega arith) tree-Holds
      ((refl, omega arith), ((refl, omega arith), tt))
