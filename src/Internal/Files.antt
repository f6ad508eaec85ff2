-- ===== src/Internal/Files.antt =====
-- serpentine_internal/src/lib.rs: files and folders as a stream of bytes, on unix, where the bytes of
-- a path are the path. The file system, the operations on paths and the serializer are parameters.
pub mod Trees
pub mod Writes
pub mod Reads
use serpentine.Prelude.{
  ℕ, zero, suc, Bool, true, false, Option, none, some, List, [], ◌∷◌, ◌++◌, length, ◌==◌, nat_eq,
  list_eq, if◌then◌else◌,
}
use serpentine.Prelude.Outcome.{Outcome, ok, err, panic, out_of_fuel, bind}
use serpentine.Internal.Frames.{FrameError, write_postcard_frame, read_postcard_frame}

abbrev pub Bytes : Type 0
Bytes = List ℕ

pub data FileSystemEntryHeader : Type 0 where
  file : Bytes → ℕ → FileSystemEntryHeader
  folder : Bytes → ℕ → FileSystemEntryHeader

-- The serializer for headers.
pub record Codec : Type 0 where
  pub to_stdvec : FileSystemEntryHeader → Bytes
  pub from_bytes : Bytes → Option FileSystemEntryHeader

-- `typed_path`
pub record PathLib : Type 0 where
  pub join : Bytes → Bytes → Bytes
  pub file_name : Bytes → Option Bytes
  pub parent : Bytes → Option Bytes

-- What `tokio::fs::metadata` tells of an item: `is_file` with `len`, `is_dir`, or neither.
pub data Metadata : Type 0 where
  is_file : ℕ → Metadata
  is_dir : Metadata
  special : Metadata

-- `tokio::fs::DirEntry`
pub record DirEntry (E : Type 0) : Type 0 where
  pub path : Bytes
  pub directory : Outcome E Bool
  pub file_name : Bytes

-- The calls that read from the file system, whose errors are `E`.
pub record Disk (E : Type 0) : Type 0 where
  pub metadata : Bytes → Outcome E Metadata
  pub contents : Bytes → Outcome E Bytes
  pub read_dir : Bytes → Outcome E (List (Outcome E (DirEntry E)))

-- The calls that write to it, on a state `S`.
pub record Target (E S : Type 0) : Type 0 where
  pub create_dir_all : Bytes → S → Outcome E S
  pub open_truncated : Bool → Bytes → S → Outcome E S
  pub write_all : Bytes → Bytes → S → Outcome E S

abbrev unwrap_or_default : Option Bytes → Bytes
unwrap_or_default none = []
unwrap_or_default (some bs) = bs

-- The step for each of a list's elements, in order.
unfoldable pub for_each : {E A X : Type 0} → (A → X → Outcome E X) → List A → X → Outcome E X
for_each f [] x = ok x
for_each f (a ∷ rest) x = bind (f a x) (for_each f rest)

-- The step, so many times.
unfoldable pub times : {E X : Type 0} → (X → Outcome E X) → ℕ → X → Outcome E X
times f zero x = ok x
times f (suc n) x = bind (f x) (times f n)

unfoldable pub absolute_path_to_item : PathLib → Bytes → Bytes → Bytes
absolute_path_to_item paths absolute_path relative_path =
    if relative_path == [] then absolute_path else paths.join absolute_path relative_path

abbrev pub name_of : PathLib → Bytes → Bytes
name_of paths relative_path = unwrap_or_default (paths.file_name relative_path)

-- The entries that the filter lets through.
unfoldable pub kept :
    {E : Type 0}
    → (Bytes → Bool → Bool)
    → List (Outcome E (DirEntry E))
    → Outcome E (List (DirEntry E))
kept filter [] = ok []
kept filter (next_entry ∷ entry_stream) = bind next_entry λ entry. bind entry.directory λ directory.
    bind (kept filter entry_stream)
      λ entries. ok (if filter entry.path directory then entry ∷ entries else entries)

module _ {E : Type 0} (paths : PathLib) (codec : Codec) (disk : Disk E) (absolute_path : Bytes)
    (filter : Bytes → Bool → Bool) where
  -- `fuel` bounds the depth of the folders.
  unfoldable pub read_disk_to_filesystem_stream : ℕ → Bytes → Bytes → Outcome E Bytes
  unfolding absolute_path_to_item kept for_each write_postcard_frame
  read_disk_to_filesystem_stream zero relative_path writer = out_of_fuel
  read_disk_to_filesystem_stream (suc fuel) relative_path writer =
      let item = absolute_path_to_item paths absolute_path relative_path in
      bind (disk.metadata item) λ metadata. elim metadata [
        | is_file length ↦
            let header = file (name_of paths relative_path) length in
            let writer' = write_postcard_frame codec.to_stdvec header writer in
            bind (disk.contents item) λ contents. ok (writer' ++ contents)
        | is_dir ↦ bind (disk.read_dir item) λ entry_stream.
            bind (kept filter entry_stream) λ entries.
              let header = folder (name_of paths relative_path) (length entries) in
              let writer' = write_postcard_frame codec.to_stdvec header writer in
              let each = λ (entry : DirEntry E).
                read_disk_to_filesystem_stream fuel (paths.join relative_path entry.file_name) in
              for_each each entries writer'
        | special ↦ ok writer
      ]

pub data StreamError (E : Type 0) : Type 0 where
  frame : FrameError → StreamError E
  io : E → StreamError E

abbrev pub frame_call : {E A : Type 0} → Outcome FrameError A → Outcome (StreamError E) A
frame_call (ok a) = ok a
frame_call (err e) = err (frame e)
frame_call panic = panic
frame_call out_of_fuel = out_of_fuel

abbrev pub io_call : {E A : Type 0} → Outcome E A → Outcome (StreamError E) A
io_call (ok a) = ok a
io_call (err e) = err (io e)
io_call panic = panic
io_call out_of_fuel = out_of_fuel

-- `reader.take(length)` up to its end, which is no error: the bytes, and those that are left.
unfoldable pub take : ℕ → Bytes → Bytes × Bytes
take zero reader = ([], reader)
take (suc n) [] = ([], [])
take (suc n) (b ∷ reader) = let (taken, left) = take n reader in (b ∷ taken, left)

module _ {E S : Type 0} (paths : PathLib) (target : Target E S)
    (permissive_permissions : Bool) where
  abbrev create_parent : Option Bytes → S → Outcome E S
  create_parent none s = ok s
  create_parent (some parent) s = target.create_dir_all parent s

  -- A file with the bytes given, in a folder that is made first.
  unfoldable pub write_file : Bytes → Bytes → S → Outcome E S
  write_file path contents s = bind (create_parent (paths.parent path) s) λ s'.
      bind (target.open_truncated permissive_permissions path s') (target.write_all path contents)

module _ {E S : Type 0} (paths : PathLib) (codec : Codec) (target : Target E S)
    (permissive_permissions : Bool) where
  -- `fuel` bounds the depth of the folders.
  unfoldable pub read_filesystem_stream_to_disk :
      ℕ → Bytes → Bytes × S → Outcome (StreamError E) (Bytes × S)
  unfolding read_postcard_frame take write_file times
  read_filesystem_stream_to_disk zero target_path (reader, s) = out_of_fuel
  read_filesystem_stream_to_disk (suc fuel) target_path (reader, s) =
      bind (frame_call (read_postcard_frame codec.from_bytes reader)) λ (header, rest).
        elim header [
          | file name length ↦
              let path = if name == [] then target_path else paths.join target_path name in
              let (contents, left) = take length rest in
              bind (io_call (write_file paths target permissive_permissions path contents s))
                λ s'. ok (left, s')
          | folder name entries ↦
              let path = paths.join target_path name in
              bind (io_call (target.create_dir_all path s))
                λ s'. times (read_filesystem_stream_to_disk fuel path) entries (rest, s')
        ]
