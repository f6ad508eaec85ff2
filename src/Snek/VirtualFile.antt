-- ===== src/Snek/VirtualFile.antt =====
-- serpentine/src/snek/span.rs: the files of a program, one behind the other, and where a span of
-- their concatenation lies. `P` is the type of paths.
pub mod Offsets
use serpentine.Prelude.{
  ℕ, ◌+◌, ◌-◌, ◌<◌, ◌≤◌, ◌≡◌, refl, Bool, true, false, Option, none, some, List, [], ◌∷◌, ◌++◌, ltb,
  arith, Bool-cases, inl, inr, if◌then◌else◌,
}
use serpentine.Prelude.Text.{Text, bytes}
use serpentine.Snek.Span.{Span}

-- The files, and the bytes of all of them.
pub record VirtualFile (P : Type 0) : Type 0 where
  pub files : List (P × Text)
  pub total : ℕ

module _ {P : Type 0} where
  -- `VirtualFile::push`: a file's id is the byte at which it starts.
  unfoldable pub push : VirtualFile P → P → Text → VirtualFile P × ℕ
  push v path code =
      (record { files = v.files ++ (path, code) ∷ []; total = v.total + bytes code }, v.total)

  -- The loop of `read_span`: the file that holds an offset, and the offset in that file.
  unfoldable pub locate : ℕ → List (P × Text) → ℕ → Option ((P × Text) × ℕ)
  locate start [] offset = none
  locate start ((path, code) ∷ files) offset =
      let rest = locate (start + bytes code) files offset in
      if ltb offset (start + bytes code) then some ((path, code), offset - start) else rest

-- `From<Span> for SourceSpan`: the offset of a span in the concatenation.
unfoldable pub offset_of : Span → ℕ
offset_of s = s.file_id + s.start
