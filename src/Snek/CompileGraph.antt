-- ===== src/Snek/CompileGraph.antt =====
-- serpentine/src/snek/mod.rs: `compile_graph`, from a file to the graph of its entry point.
pub mod Composed
use serpentine.Prelude.{ℕ, Eq}
use serpentine.Prelude.Outcome.{Outcome, bind}
use serpentine.Prelude.Text.{Text}
use serpentine.Snek.CompileError.{CompileError}
use serpentine.Snek.Tokenizer.{CharClasses}
use serpentine.Snek.VirtualFile.{VirtualFile}
use serpentine.Snek.Compiler.{CompileResult, compile}
use serpentine.Snek.Resolver.{Files}
use serpentine.Snek.Resolver.Modules.{resolve}

module _ {PathBuf P : Type 0} ⦃e : Eq PathBuf⦄ (files : Files PathBuf) (classes : CharClasses) where
  -- The fuel is that of `resolve`.
  unfoldable pub compile_graph :
      ℕ → VirtualFile PathBuf → PathBuf → Text → Outcome CompileError (CompileResult P)
  unfolding resolve compile
  compile_graph fuel file path entry_point =
      bind (resolve files classes fuel file path entry_point) compile
