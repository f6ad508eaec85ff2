-- ===== src/Internal/Files/Writes.antt =====
-- lib.rs: what `read_disk_to_filesystem_stream` writes.
use serpentine.Prelude.{
  ℕ, zero, suc, ◌≤◌, ◌≡◌, refl, sym, ap, ◌∙◌, List, [], ◌∷◌, ◌++◌, append_assoc, append-nil, length,
  Bool, arith,
}
use serpentine.Prelude.Outcome.{Outcome, ok}
use serpentine.Internal.Frames.{le_bytes, write_postcard_frame}
use serpentine.Internal.Files.{
  Bytes, FileSystemEntryHeader, Codec, PathLib, DirEntry, Disk, for_each,
  read_disk_to_filesystem_stream,
}
use serpentine.Internal.Files.Trees.{
  Tree, Trees, leaf, branch, no_entries, entry_cons, count, size, size_all, stream, stream_all,
  header_frame, Holds, HoldsAll,
}

write_postcard_frame-append :
    (codec : Codec) (header : FileSystemEntryHeader) (writer : Bytes)
    → write_postcard_frame codec.to_stdvec header writer ≡ writer ++ header_frame codec header
unfolding write_postcard_frame
write_postcard_frame-append codec header writer =
    append_assoc writer (le_bytes 8 (length (codec.to_stdvec header))) (codec.to_stdvec header)

module _ {E : Type 0} (paths : PathLib) (codec : Codec) (disk : Disk E) (absolute_path : Bytes)
    (filter : Bytes → Bool → Bool) where
  HoldsAll-length :
      (relative_path : Bytes) (entries : List (DirEntry E)) (ts : Trees)
      → HoldsAll paths disk absolute_path filter relative_path entries ts
      → length entries ≡ count ts
  HoldsAll-length relative_path [] no_entries h = refl
  HoldsAll-length relative_path [] (entry_cons t ts) h = absurd h
  HoldsAll-length relative_path (entry ∷ entries) no_entries h = absurd h
  HoldsAll-length relative_path (entry ∷ entries) (entry_cons t ts) (_, h) =
      ap suc (HoldsAll-length relative_path entries ts h)

  abbrev write : ℕ → Bytes → Bytes → Outcome E Bytes
  write = read_disk_to_filesystem_stream paths codec disk absolute_path filter

  mutual
    unfolding read_disk_to_filesystem_stream stream for_each

    pub write-stream :
        (t : Tree) (fuel : ℕ) (relative_path writer : Bytes)
        → size t ≤ fuel
        → Holds paths disk absolute_path filter relative_path t
        → write fuel relative_path writer ≡ ok (writer ++ stream codec t)
    write-stream (leaf name contents) zero relative_path writer le h = absurd (omega arith)
    write-stream (branch name ts) zero relative_path writer le h = absurd (omega arith)
    write-stream (leaf name contents) (suc fuel) relative_path writer le (p, q, r) =
        rw (q, r, p, write_postcard_frame-append codec)
          (ap ok (append_assoc writer (header_frame codec _) contents))
    write-stream (branch name ts) (suc fuel) relative_path writer le
          (p, q, (entries, ((entry_stream, r, k), h))) =
        rw
          (
            q,
            r,
            k,
            p,
            HoldsAll-length relative_path entries ts h,
            write_postcard_frame-append codec,
          )
          (write_all-stream ts fuel relative_path entries (writer ++ header_frame codec _)
              (omega arith) h
            ∙ ap ok (append_assoc writer (header_frame codec _) (stream_all codec ts)))

    write_all-stream :
        (ts : Trees) (fuel : ℕ) (relative_path : Bytes) (entries : List (DirEntry E))
        (writer : Bytes)
        → size_all ts ≤ fuel
        → HoldsAll paths disk absolute_path filter relative_path entries ts
        → for_each
            (λ (entry : DirEntry E). write fuel (paths.join relative_path entry.file_name))
            entries
            writer
          ≡ ok (writer ++ stream_all codec ts)
    write_all-stream no_entries fuel relative_path [] writer le h = ap ok (sym (append-nil writer))
    write_all-stream no_entries fuel relative_path (entry ∷ entries) writer le h = absurd h
    write_all-stream (entry_cons t ts) fuel relative_path [] writer le h = absurd h
    write_all-stream (entry_cons t ts) fuel relative_path (entry ∷ entries) writer le (h, hs) =
        rw (write-stream t fuel (paths.join relative_path entry.file_name) writer (omega arith) h) (
          write_all-stream ts fuel relative_path entries (writer ++ stream codec t) (omega arith) hs
          ∙ ap ok (append_assoc writer (stream codec t) (stream_all codec ts)))
