-- ===== src/Snek/Compiler/Soundness.antt =====
-- compiler.rs: what a compiled program is.
use serpentine.Prelude.{ℕ, ◌≡◌, refl, some, get_elem?, suc, length, arith}
use serpentine.Prelude.Outcome.{ok, Ensures, Ensures-bind, Ensures-ok, holds}
use serpentine.Engine.DataModel.{DataType, Node, NodeMetadata}
use serpentine.Snek.Compiler.{
  ImmutableContext, ResolveResult, CompileResult, initial, context_of, compile,
}
use serpentine.Snek.Compiler.Denotation.{Denotes, IsAcyclic}
use serpentine.Snek.Compiler.Invariant.{IsGood, Typing}
use serpentine.Snek.Compiler.Builtins.{HasNoop, get_symbol-Runs}
use serpentine.Snek.Compiler.Preserves.{run_program-Runs}

module _ {P : Type 0} where
  -- The inputs of every node come before it, no node stands in the graph twice, and the start node
  -- has a type, by a derivation in which every node below it type checks.
  pub record IsProgram (r : ResolveResult P) (c : CompileResult P) : Type 0 where
    pub same_nodes : c.nodes ≡ r.nodes
    pub acyclic : IsAcyclic c.graph
    pub no_duplicates :
        (i j : ℕ) (n : Node) (m m' : NodeMetadata)
        → get_elem? c.graph i ≡ some (n, m)
        → get_elem? c.graph j ≡ some (n, m')
        → i ≡ j
    pub start_typed : (τ : DataType) × Denotes (Typing (context_of r)) c.graph c.start_node τ

  initial-IsGood : (context : ImmutableContext P) → IsGood context initial
  initial-IsGood context = record {
    deduplicated = record {
      acyclic = λ i n m h. ground arith;
      cached = λ n i h. cc;
      unique = λ i n m h. ground arith;
    };
    typed = λ s v h. cc;
  }

  compile-Ensures :
      (r : ResolveResult P) → HasNoop (context_of r) → Ensures (IsProgram r) (compile r)
  unfolding compile
  compile-Ensures r h =
      Ensures-bind
        (run_program-Runs (context_of r) h (suc (length r.ir.functions)) r.ir.top_level initial
          (initial-IsGood (context_of r))).ensures
        λ (_, st) (kept, _).
          Ensures-bind (get_symbol-Runs (context_of r) r.ir.start_point st kept.good).ensures
            λ (v, st') (kept', d).
              let dedup = kept'.good.deduplicated in
              holds (record {
                same_nodes = refl;
                acyclic = dedup.acyclic;
                no_duplicates = λ i j n m m' p q. cc (dedup.unique i n m p, dedup.unique j n m' q);
                start_typed = (v.type_, d);
              })

  -- Where the context's noop is an implementation of `Noop`, a program that compiles keeps the node
  -- implementations, has an acyclic graph with no duplicate node, and its start node is typed by the
  -- implementations of the nodes.
  pub compile-IsProgram :
      (r : ResolveResult P) (c : CompileResult P)
      → HasNoop (context_of r)
      → compile r ≡ ok c
      → IsProgram r c
  compile-IsProgram r c h e = Ensures-ok (compile-Ensures r h) e
