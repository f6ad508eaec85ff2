-- ===== src/Internal/Files/Trees.antt =====
-- lib.rs: what a stream of files and folders describes, with no reader or writer.
use serpentine.Prelude.{
  ℕ, suc, ◌+◌, ◌<◌, ◌≡◌, List, [], ◌∷◌, ◌++◌, length, some, Bool, ◌==◌, nat_eq, list_eq,
  if◌then◌else◌,
}
use serpentine.Prelude.Outcome.{Outcome, ok, bind}
use serpentine.Internal.Frames.{write_postcard_frame}
use serpentine.Internal.Files.{
  Bytes, FileSystemEntryHeader, file, folder, Codec, PathLib, is_file, is_dir, DirEntry, Disk,
  Target, absolute_path_to_item, name_of, kept, write_file,
}

-- A file with its contents or a folder with its entries, each with its name.
mutual
  pub data Tree : Type 0 where
    leaf : Bytes → Bytes → Tree
    branch : Bytes → Trees → Tree

  pub data Trees : Type 0 where
    no_entries : Trees
    entry_cons : Tree → Trees → Trees

abbrev pub count : Trees → ℕ
count no_entries = 0
count (entry_cons t ts) = suc (count ts)

abbrev mutual
  pub size : Tree → ℕ
  size (leaf name contents) = 1
  size (branch name ts) = suc (size_all ts)

  pub size_all : Trees → ℕ
  size_all no_entries = 0
  size_all (entry_cons t ts) = size t + size_all ts

module _ (codec : Codec) where
  -- The header is read back as it was, and its frame's length is a u64.
  abbrev pub FitsFrame : FileSystemEntryHeader → Type 0
  FitsFrame header =
      (codec.from_bytes (codec.to_stdvec header) ≡ some header)
      × (length (codec.to_stdvec header) < 18446744073709551616)

  abbrev mutual
    pub Fits : Tree → Type 0
    Fits (leaf name contents) = FitsFrame (file name (length contents))
    Fits (branch name ts) = FitsFrame (folder name (count ts)) × FitsAll ts

    pub FitsAll : Trees → Type 0
    FitsAll no_entries = Unit
    FitsAll (entry_cons t ts) = Fits t × FitsAll ts

  abbrev pub header_frame : FileSystemEntryHeader → Bytes
  header_frame header = write_postcard_frame codec.to_stdvec header []

  -- The bytes of a tree.
  unfoldable mutual
    pub stream : Tree → Bytes
    stream (leaf name contents) = header_frame (file name (length contents)) ++ contents
    stream (branch name ts) = header_frame (folder name (count ts)) ++ stream_all ts

    pub stream_all : Trees → Bytes
    stream_all no_entries = []
    stream_all (entry_cons t ts) = stream t ++ stream_all ts

-- The calls that make a tree at a path.
module _ {E S : Type 0} (paths : PathLib) (target : Target E S)
    (permissive_permissions : Bool) where
  unfoldable mutual
    pub place : Tree → Bytes → S → Outcome E S
    place (leaf name contents) path s =
        write_file paths target permissive_permissions
          (if name == [] then path else paths.join path name) contents s
    place (branch name ts) path s =
        bind (target.create_dir_all (paths.join path name) s) (place_all ts (paths.join path name))

    pub place_all : Trees → Bytes → S → Outcome E S
    place_all no_entries path s = ok s
    place_all (entry_cons t ts) path s = bind (place t path s) (place_all ts path)

-- The disk holds a tree at a path, and nothing that is neither a file nor a folder.
module _ {E : Type 0} (paths : PathLib) (disk : Disk E) (absolute_path : Bytes)
    (filter : Bytes → Bool → Bool) where
  abbrev pub KeepsEntries : Bytes → List (DirEntry E) → Type 0
  KeepsEntries item entries =
      (stream : List (Outcome E (DirEntry E))) × (disk.read_dir item ≡ ok stream)
      × (kept filter stream ≡ ok entries)

  abbrev mutual
    pub Holds : Bytes → Tree → Type 0
    Holds relative_path (leaf name contents) =
        let item = absolute_path_to_item paths absolute_path relative_path in
        (name ≡ name_of paths relative_path)
        × (disk.metadata item ≡ ok (is_file (length contents)))
        × (disk.contents item ≡ ok contents)
    Holds relative_path (branch name ts) =
        let item = absolute_path_to_item paths absolute_path relative_path in
        (name ≡ name_of paths relative_path)
        × (disk.metadata item ≡ ok is_dir)
        × ((entries : List (DirEntry E)) × (KeepsEntries item entries
              × HoldsAll relative_path entries ts))

    pub HoldsAll : Bytes → List (DirEntry E) → Trees → Type 0
    HoldsAll relative_path [] no_entries = Unit
    HoldsAll relative_path (entry ∷ entries) (entry_cons t ts) =
        Holds (paths.join relative_path entry.file_name) t × HoldsAll relative_path entries ts
    HoldsAll relative_path _ _ = ⊥
