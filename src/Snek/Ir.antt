-- ===== src/Snek/Ir.antt =====
-- serpentine/src/snek/ir.rs: a program with its names resolved and its modules merged.
use serpentine.Prelude.{ℕ, List}
use serpentine.Snek.Span.{Span}

-- A symbol and a function id are indices.
pub record Node : Type 0 where
  pub name : ℕ
  pub function : ℕ
  pub arguments : List ℕ
  pub phantom_inputs : List ℕ
  pub span : Span

abbrev pub Body : Type 0
Body = List Node

-- A default parameter is its symbol, the symbol of its default value, and the body that sets that.
pub data Function : Type 0 where
  builtin_function : ℕ → Function
  custom : List ℕ → List (ℕ × ℕ × Body) → Body → ℕ → Function

pub record Pipeline : Type 0 where
  pub top_level : Body
  pub functions : List Function
  pub start_point : ℕ
