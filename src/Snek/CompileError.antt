-- ===== src/Snek/CompileError.antt =====
-- serpentine/src/snek/mod.rs: the errors of the front end.
use serpentine.Prelude.{ℕ, String, List}
use serpentine.Prelude.Text.{Text}
use serpentine.Engine.Nodes.{Count}
use serpentine.Snek.Span.{Span}
use serpentine.Snek.Token.{Description}

-- The fields are those of the program, in its order; the error values of the standard library that
-- two of them carry are left out.
pub data CompileError : Type 0 where
  file_reading : Text → CompileError
  unknown_character : Span → ℕ → CompileError
  unterminated_string : Span → CompileError
  integer_overflow : Span → CompileError
  unexpected_token : Description → Description → Span → CompileError
  type_mismatch : String → String → Span → Span → List Span → CompileError
  argument_count_mismatch : Count → ℕ → Span → CompileError
  required_after_default : Span → CompileError
  item_not_found : Text → Span → CompileError
  wrong_item_kind : String → String → Span → CompileError
  invalid_statement : String → String → String → Span → CompileError
  return_not_found : Span → CompileError
  double_return : Span → CompileError
  circular_import : Text → CompileError
  import_error : Text → CompileError → Span → CompileError
  internal_error : String → CompileError
