-- ===== src/Snek/Resolver/Repeats.antt =====
-- resolver.rs: what is resolved a second time, later in the run.
use serpentine.Prelude.{
  ℕ, ◌≤◌, ◌<◌, length, ◌≡◌, refl, List, get_elem?, Option, none, some, Eq, nat_eq, list_eq, arith,
}
use serpentine.Prelude.Map.{lookup, insert, lookup-insert}
use serpentine.Prelude.Outcome.{Outcome, ok, Total-ok}
use serpentine.Prelude.Text.{Text}
use serpentine.Snek.Ast.{Statements}
use serpentine.Snek.CompileError.{CompileError}
use serpentine.Snek.Span.{Span}
use serpentine.Snek.Tokenizer.{CharClasses}
use serpentine.Snek.Scope.{Items, Scope}
use serpentine.Snek.Resolver.{
  Files, Resolver, LiteralKey, key_eq, cached_or_emitted, resolve_literal,
}
use serpentine.Snek.Resolver.Statements.{resolve_statements}
use serpentine.Snek.Resolver.Modules.{read, module_path, get_module}
use serpentine.Snek.Resolver.Invariant.{ItemsBelow, ScopeBelow, uncached, IsGood, Kept}
use serpentine.Snek.Resolver.Calls.{resolve_literal-Runs}
use serpentine.Snek.Resolver.Bodies.{resolve_statements-Runs}
use serpentine.Snek.Resolver.Imports.{get_module-Runs}

-- A literal that has been resolved is cached.
resolve_literal-cached :
    {PathBuf P : Type 0} (key : LiteralKey) (s : Span) (st st' : Resolver PathBuf P) (symbol : ℕ)
    → resolve_literal key s st ≡ ok (symbol, st')
    → lookup st'.cached_literals key ≡ some symbol
unfolding resolve_literal
resolve_literal-cached key s st st' symbol h = go (lookup st.cached_literals key) refl h
  where
    go :
        (o : Option ℕ)
        → lookup st.cached_literals key ≡ o
        → cached_or_emitted key s o st ≡ ok (symbol, st')
        → lookup st'.cached_literals key ≡ some symbol
    go (some v) there h = cc (there, h)
    go none there h =
        let same : insert st.cached_literals key st.next_symbol_id ≡ st'.cached_literals = cc h in
        let value : st.next_symbol_id ≡ symbol = cc h in
        cc (same, value, lookup-insert st.cached_literals key st.next_symbol_id)

-- The state is one that the resolver reaches: the invariant holds, with the functions of the prelude
-- there and fuel for the files that are still to be read.
module _ {PathBuf P : Type 0} ⦃e : Eq PathBuf⦄ (paths : List PathBuf) (files : Files PathBuf)
    (classes : CharClasses) (prelude_items : Items) (n : ℕ)
    (prelude_below : ItemsBelow n 0 prelude_items)
    (finite : (path : PathBuf) (code : Text)
      → read files (module_path files path) ≡ ok code
      → (i : ℕ) × (get_elem? paths i ≡ some (module_path files path)))
    (fuel : ℕ) (current : PathBuf) (scope scope' : Scope) (statements : Statements) where
  -- What the statements keep.
  later-Kept :
      (st st' : Resolver PathBuf P)
      → IsGood st
      → n ≤ length st.functions
      → uncached paths st.module_cache < fuel
      → ScopeBelow (length st.functions) (length st.modules) scope
      → resolve_statements files
          (get_module files classes prelude_items fuel)
          current
          scope
          statements
          st
        ≡ ok (scope', st')
      → Kept paths st st'
  later-Kept st st' g le u below h =
      (Total-ok
        (resolve_statements-Runs paths files (get_module files classes prelude_items fuel) current n
          fuel (get_module-Runs paths files classes prelude_items n prelude_below finite fuel) scope
          statements st g le u below).total
        h).0

  -- From a state with the resolver's invariant and the functions of the prelude, where the files
  -- that can be read are among finitely many paths and the fuel is more than the number of those
  -- that are uncached: a literal that has been resolved has the same symbol after any statements
  -- that are resolved later, in a scope that leads to what is there, with the modules that they
  -- import, and nothing is emitted for it a second time.
  pub resolve_literal-resolve_statements :
      (key : LiteralKey) (s s' : Span) (st st₁ st₂ : Resolver PathBuf P) (symbol : ℕ)
      → IsGood st
      → n ≤ length st.functions
      → uncached paths st.module_cache < fuel
      → resolve_literal key s st ≡ ok (symbol, st₁)
      → ScopeBelow (length st₁.functions) (length st₁.modules) scope
      → resolve_statements files
          (get_module files classes prelude_items fuel)
          current
          scope
          statements
          st₁
        ≡ ok (scope', st₂)
      → resolve_literal key s' st₂ ≡ ok (symbol, st₂)
  unfolding resolve_literal
  resolve_literal-resolve_statements key s s' st st₁ st₂ symbol g le u first below later =
      let k = (Total-ok (resolve_literal-Runs paths key s st g).total first).0 in
      let k' =
        later-Kept st₁ st₂ k.good (omega (arith, le, k.functions_le))
          (omega (arith, u, k.uncached_le)) below later in
      rw (k'.literals_kept key symbol (resolve_literal-cached key s st st₁ symbol first)) refl
