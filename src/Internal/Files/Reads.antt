-- ===== src/Internal/Files/Reads.antt =====
-- lib.rs: what `read_filesystem_stream_to_disk` makes of a stream.
use serpentine.Prelude.{
  ℕ, zero, suc, ◌≤◌, ◌≡◌, refl, subst, [], ◌∷◌, ◌++◌, append_assoc, append-nil, length, Bool,
  nat_eq, list_eq, arith,
}
use serpentine.Prelude.Outcome.{Outcome, ok, err, panic, out_of_fuel, bind}
use serpentine.Internal.Frames.{read_postcard_frame}
use serpentine.Internal.Frames.RoundTrip.{read_postcard_frame-write_postcard_frame}
use serpentine.Internal.Files.{
  Bytes, FileSystemEntryHeader, file, folder, Codec, PathLib, Disk, Target, StreamError, io_call,
  take, times, read_disk_to_filesystem_stream, read_filesystem_stream_to_disk,
}
use serpentine.Internal.Files.Trees.{
  Tree, Trees, leaf, branch, no_entries, entry_cons, count, size, size_all, stream, stream_all,
  header_frame, FitsFrame, Fits, FitsAll, place, place_all, Holds,
}
use serpentine.Internal.Files.Writes.{write-stream}

take-append : (contents left : Bytes) → take (length contents) (contents ++ left) ≡ (contents, left)
unfolding take
take-append [] left = refl
take-append (b ∷ contents) left = rw (take-append contents left) refl

header_read :
    (codec : Codec) (header : FileSystemEntryHeader) (after : Bytes)
    → FitsFrame codec header
    → read_postcard_frame codec.from_bytes (header_frame codec header ++ after) ≡ ok (header, after)
header_read codec header after (back, lt) =
    read_postcard_frame-write_postcard_frame codec.to_stdvec codec.from_bytes header after back lt

-- What the reader returns where the calls to the file system return `r`.
abbrev pub leaving : {E S : Type 0} → Bytes → Outcome E S → Outcome (StreamError E) (Bytes × S)
leaving left r = bind (io_call r) λ s. ok (left, s)

leaving-bind :
    {E S : Type 0} (left left' : Bytes) (r : Outcome E S) (f : S → Outcome E S)
    (g : Bytes × S → Outcome (StreamError E) (Bytes × S))
    → ((s : S) → g (left, s) ≡ leaving left' (f s))
    → bind (leaving left r) g ≡ leaving left' (bind r f)
leaving-bind left left' (ok s) f g h = h s
leaving-bind left left' (err e) f g h = refl
leaving-bind left left' panic f g h = refl
leaving-bind left left' out_of_fuel f g h = refl

io_call-bind :
    {E S : Type 0} (left' : Bytes) (r : Outcome E S) (f : S → Outcome E S)
    (g : S → Outcome (StreamError E) (Bytes × S))
    → ((s : S) → g s ≡ leaving left' (f s))
    → bind (io_call r) g ≡ leaving left' (bind r f)
io_call-bind left' (ok s) f g h = h s
io_call-bind left' (err e) f g h = refl
io_call-bind left' panic f g h = refl
io_call-bind left' out_of_fuel f g h = refl

module _ {E S : Type 0} (paths : PathLib) (codec : Codec) (target : Target E S)
    (permissive : Bool) where
  abbrev read : ℕ → Bytes → Bytes × S → Outcome (StreamError E) (Bytes × S)
  read = read_filesystem_stream_to_disk paths codec target permissive

  mutual
    unfolding read_filesystem_stream_to_disk stream place times

    read-stream :
        (t : Tree) (fuel : ℕ) (path rest : Bytes) (s : S)
        → size t ≤ fuel
        → Fits codec t
        → read fuel path (stream codec t ++ rest, s)
          ≡ leaving rest (place paths target permissive t path s)
    read-stream (leaf name contents) zero path rest s le h = absurd (omega arith)
    read-stream (branch name ts) zero path rest s le h = absurd (omega arith)
    read-stream (leaf name contents) (suc fuel) path rest s le h =
        rw
          (
            append_assoc (header_frame codec (file name (length contents))) contents rest,
            header_read codec (file name (length contents)) (contents ++ rest) h,
            take-append contents rest,
          )
          refl
    read-stream (branch name ts) (suc fuel) path rest s le (h, hs) =
        let path' = paths.join path name in
        rw
          (
            append_assoc (header_frame codec (folder name (count ts))) (stream_all codec ts) rest,
            header_read codec (folder name (count ts)) (stream_all codec ts ++ rest) h,
          )
          (io_call-bind rest (target.create_dir_all path' s)
            (place_all paths target permissive ts path')
            (λ s'. times (read fuel path') (count ts) (stream_all codec ts ++ rest, s'))
            (λ s'. read_all-stream ts fuel path' rest s' (omega arith) hs))

    read_all-stream :
        (ts : Trees) (fuel : ℕ) (path rest : Bytes) (s : S)
        → size_all ts ≤ fuel
        → FitsAll codec ts
        → times (read fuel path) (count ts) (stream_all codec ts ++ rest, s)
          ≡ leaving rest (place_all paths target permissive ts path s)
    read_all-stream no_entries fuel path rest s le h = refl
    read_all-stream (entry_cons t ts) fuel path rest s le (h, hs) =
        rw
          (
            append_assoc (stream codec t) (stream_all codec ts) rest,
            read-stream t fuel path (stream_all codec ts ++ rest) s (omega arith) h,
          )
          (leaving-bind (stream_all codec ts ++ rest) rest (place paths target permissive t path s)
            (place_all paths target permissive ts path) (times (read fuel path) (count ts))
            (λ s'. read_all-stream ts fuel path rest s' (omega arith) hs))

  -- A stream of a tree makes the tree's files and folders at the target, in the order in which they
  -- stand, fails where a call to the file system fails, and is read to its end and no further.
  pub read_filesystem_stream_to_disk-stream :
      (t : Tree) (fuel : ℕ) (path rest : Bytes) (s : S)
      → size t ≤ fuel
      → Fits codec t
      → read_filesystem_stream_to_disk paths codec target permissive fuel path
          (stream codec t ++ rest, s)
        ≡ leaving rest (place paths target permissive t path s)
  read_filesystem_stream_to_disk-stream = read-stream

  -- A tree of files and folders on one disk, streamed and read on another, is made there with the
  -- same names and contents, and the stream ends where the tree does.
  pub read_filesystem_stream_to_disk-read_disk_to_filesystem_stream :
      {F : Type 0} (disk : Disk F) (filter : Bytes → Bool → Bool) (source : Bytes) (t : Tree)
      (fuel : ℕ) (path : Bytes) (s : S)
      → size t ≤ fuel
      → Holds paths disk source filter [] t
      → Fits codec t
      → (sent : Bytes) × (read_disk_to_filesystem_stream paths codec disk source filter fuel [] []
          ≡ ok sent)
        × (read_filesystem_stream_to_disk paths codec target permissive fuel path (sent, s)
            ≡ leaving [] (place paths target permissive t path s))
  read_filesystem_stream_to_disk-read_disk_to_filesystem_stream disk filter source t fuel path s le
        holds fits =
      (
        stream codec t,
        write-stream paths codec disk source filter t fuel [] [] le holds,
        subst
            (λ sent. read fuel path (sent, s) ≡ leaving [] (place paths target permissive t path s))
            (append-nil (stream codec t)) (read-stream t fuel path [] s le fits),
      )
