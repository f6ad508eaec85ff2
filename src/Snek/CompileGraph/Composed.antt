-- ===== src/Snek/CompileGraph/Composed.antt =====
-- mod.rs: the resolver's result as the compiler wants it.
use serpentine.Prelude.{ℕ, ◌<◌, ◌≡◌, ◌≢◌, refl, Eq, List, length, some, get_elem?}
use serpentine.Prelude.Outcome.{
  Outcome, ok, err, panic, out_of_fuel, bind, Total, Ensures, Ensures-of_ok, raised, returned,
}
use serpentine.Prelude.Text.{Text}
use serpentine.Snek.CompileError.{CompileError}
use serpentine.Snek.Tokenizer.{CharClasses}
use serpentine.Snek.VirtualFile.{VirtualFile}
use serpentine.Snek.Compiler.{CompileResult, ResolveResult, compile, context_of}
use serpentine.Snek.Compiler.Builtins.{HasNoop}
use serpentine.Snek.Compiler.Soundness.{IsProgram, compile-IsProgram}
use serpentine.Snek.Compiler.Termination.{IsStratified, compile-ne-out_of_fuel}
use serpentine.Snek.Resolver.{Files}
use serpentine.Snek.Resolver.Modules.{read, module_path, resolve}
use serpentine.Snek.Resolver.Resolves.{resolve-IsStratified}
use serpentine.Snek.CompileGraph.{compile_graph}

module _ {PathBuf P : Type 0} ⦃e : Eq PathBuf⦄ (paths : List PathBuf) (files : Files PathBuf)
    (classes : CharClasses)
    (finite : (path : PathBuf) (code : Text)
      → read files (module_path files path) ≡ ok code
      → (i : ℕ) × (get_elem? paths i ≡ some (module_path files path))) where
  -- Where the files that can be read are among the `paths` and the fuel is more than their number,
  -- `compile_graph` does not run out of fuel, neither on imports nor on calls. If it gives a graph,
  -- then `resolve` gave the program, and the graph is a program for it: acyclic, with no duplicate
  -- node, and with a start node that is typed.
  pub compile_graph-IsProgram :
      (fuel : ℕ) (file : VirtualFile PathBuf) (path : PathBuf) (entry_point : Text)
      → length paths < fuel
      → (compile_graph {P = P} files classes fuel file path entry_point ≢ out_of_fuel)
        × Ensures {A = CompileResult P}
            (λ c.
              (r : ResolveResult P) × (resolve files classes fuel file path entry_point ≡ ok r)
              × IsProgram r c)
            (compile_graph files classes fuel file path entry_point)
  unfolding compile_graph
  compile_graph-IsProgram fuel file path entry_point lt =
      go (resolve files classes fuel file path entry_point)
        (resolve-IsStratified paths files classes finite fuel file path entry_point lt)
    where
      go :
          (o : Outcome CompileError (ResolveResult P))
          → Total
              (λ x. Unit {0})
              (λ (r : ResolveResult P). IsStratified r.ir.functions × HasNoop (context_of r))
              o
          → (bind o compile ≢ out_of_fuel)
            × Ensures {A = CompileResult P}
                (λ c. (r : ResolveResult P) × (o ≡ ok r) × IsProgram r c)
                (bind o compile)
      go (ok r) (returned (h, noop_there)) = (
        compile-ne-out_of_fuel r h,
        Ensures-of_ok (compile r) λ c there. (r, refl, compile-IsProgram r c noop_there there),
      )
      go (err x) t = (cc, raised)
      go panic t = elim t [ ]
      go out_of_fuel t = elim t [ ]
