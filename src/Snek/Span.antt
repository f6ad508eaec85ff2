-- ===== src/Snek/Span.antt =====
-- serpentine/src/snek/span.rs: ranges of the source code.
use serpentine.Prelude.{ℕ, min, max}

pub record Span : Type 0 where
  pub file_id : ℕ
  pub start : ℕ
  pub end : ℕ

abbrev pub dummy : Span
dummy = record { file_id = 0; start = 0; end = 0 }

-- The program asserts in debug builds that both lie in one file.
unfoldable pub join : Span → Span → Span
join a b = record { file_id = a.file_id; start = min a.start b.start; end = max a.end b.end }

-- `Spanned<T>`: a value and where it stands.
abbrev pub Spanned {ℓ} : Type ℓ → Type ℓ
Spanned T = T × Span
