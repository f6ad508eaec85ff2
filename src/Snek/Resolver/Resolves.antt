-- ===== src/Snek/Resolver/Resolves.antt =====
-- resolver.rs: the prelude's scope, and `resolve`.
use serpentine.Prelude.{
  ℕ, ◌≤◌, ◌<◌, ◌≡◌, refl, sym, subst, Bool, true, false, some, List, [], ◌∷◌, length, get_elem?,
  All, All-get_elem?, Eq, arith, list_eq, nat_eq,
}
use serpentine.Prelude.Outcome.{ok, Total, returned, Total-bind}
use serpentine.Prelude.Text.{Text, codes}
use serpentine.Engine.Nodes.{noop}
use serpentine.Snek.Span.{Span}
use serpentine.Snek.CompileError.{CompileError}
use serpentine.Snek.Ir.{Function, builtin_function, custom}
use serpentine.Snek.Tokenizer.{CharClasses}
use serpentine.Snek.VirtualFile.{VirtualFile, push}
use serpentine.Snek.Compiler.{ResolveResult, context_of}
use serpentine.Snek.Compiler.Termination.{FunctionCallsBelow, IsStratified}
use serpentine.Snek.Compiler.Builtins.{HasNoop}
use serpentine.Snek.Scope.{Items}
use serpentine.Snek.Resolver.{Files, Resolver}
use serpentine.Snek.Resolver.Modules.{
  read, module_path, create_prelude, initial, start_symbol, resolve_with, resolve,
}
use serpentine.Snek.Resolver.Invariant.{
  ItemsBelow, ContextBelow, CacheBelow, uncached, IsGood, Kept-refl, Runs,
}
use serpentine.Snek.Resolver.Calls.{
  Anything, Kept-same, lookup_item-IsBelow, try_into_label-Total, expect-get_elem?,
}
use serpentine.Snek.Resolver.Imports.{get_module-Runs}

abbrev IsBuiltin : Function → Type 0
IsBuiltin (builtin_function kind) = Unit
IsBuiltin (custom required defaults body return_value) = ⊥

abbrev all_builtin : List Function → Bool
all_builtin [] = true
all_builtin (builtin_function kind ∷ fs) = all_builtin fs
all_builtin (custom required defaults body return_value ∷ fs) = false

all_builtin-All : (fs : List Function) → all_builtin fs ≡ true → All IsBuiltin fs
all_builtin-All [] h = tt
all_builtin-All (builtin_function kind ∷ fs) h = (tt, all_builtin-All fs h)
all_builtin-All (custom required defaults body return_value ∷ fs) h = cc

all_builtin-IsStratified : (fs : List Function) → all_builtin fs ≡ true → IsStratified fs
all_builtin-IsStratified fs h k f there =
    calls f (All-get_elem? IsBuiltin fs k (all_builtin-All fs h) there)
  where
    calls : (f : Function) → IsBuiltin f → FunctionCallsBelow k f
    calls (builtin_function kind) h = tt
    calls (custom required defaults body return_value) h = absurd h

-- The state after `create_prelude`.
record Ready {PathBuf P : Type 0} (items : Items) (st : Resolver PathBuf P) : Type 0 where
  good : IsGood st
  below : ItemsBelow (length st.functions) 0 items
  empty_cache : st.module_cache ≡ []

builtins-IsGood :
    {PathBuf P : Type 0} (st : Resolver PathBuf P)
    → all_builtin st.functions ≡ true
    → All (ItemsBelow (length st.functions) (length st.modules)) st.modules
    → ContextBelow (length st.functions) (length st.modules) st.context
    → get_elem? st.nodes 0 ≡ some noop
    → CacheBelow (length st.modules) st.module_cache
    → IsGood st
builtins-IsGood st b m c n h = record {
  stratified = all_builtin-IsStratified st.functions b;
  modules = m;
  context = c;
  first_noop = n;
  cache = h;
}

create_prelude-Ready :
    {PathBuf P : Type 0} (file : VirtualFile PathBuf)
    → Total {E = CompileError} {A = (Items × ℕ) × Resolver PathBuf P}
        (λ x. Unit {0})
        (λ ((items, id), st). Ready items st × (id ≡ 0))
        (create_prelude (initial file))
unfolding create_prelude
create_prelude-Ready file = returned (
  record { good = builtins-IsGood _ refl tt tt refl tt; below = ground arith; empty_cache = refl },
  refl,
)

uncached_le :
    {PathBuf : Type 0} ⦃e : Eq PathBuf⦄ (paths : List PathBuf) → uncached paths [] ≤ length paths
uncached_le [] = omega arith
uncached_le (p ∷ ps) = omega (arith, uncached_le ps)

module _ {PathBuf P : Type 0} ⦃e : Eq PathBuf⦄ (paths : List PathBuf) (files : Files PathBuf)
    (classes : CharClasses) where
  start_symbol-Runs :
      (m : ℕ) (entry_point : Text) (s : Span) (st : Resolver PathBuf P)
      → IsGood st
      → m < length st.modules
      → Runs paths Anything st (start_symbol files classes m entry_point s st)
  unfolding start_symbol
  start_symbol-Runs m entry_point s st g lt = record {
    total =
        Total-bind
          (expect-get_elem? (ItemsBelow (length st.functions) (length st.modules)) st.modules m
            g.modules lt)
          λ items below.
            Total-bind
              (lookup_item-IsBelow (length st.functions) (length st.modules) (items ∷ [])
                entry_point s (below, tt))
              λ item b.
                Total-bind (try_into_label-Total item s)
                  λ symbol u. returned (Kept-refl paths st g, tt);
  }

  module _
      (finite : (path : PathBuf) (code : Text)
        → read files (module_path files path) ≡ ok code
        → (i : ℕ) × (get_elem? paths i ≡ some (module_path files path))) where
    resolve_with-Total :
        (fuel : ℕ) (path : PathBuf) (entry_point : Text) (x : (Items × ℕ) × Resolver PathBuf P)
        → length paths < fuel
        → Ready x.0.0 x.1
        → x.0.1 ≡ 0
        → Total
            (λ x. Unit {0})
            (λ (r : ResolveResult P). IsStratified r.ir.functions × HasNoop (context_of r))
            (resolve_with files classes fuel path entry_point x)
    unfolding resolve_with
    resolve_with-Total fuel path entry_point ((items, id), st₀) lt ready zeroth =
        let name = files.from_text (codes "<cli>") in
        let file' : VirtualFile PathBuf = (push st₀.file name entry_point).0 in
        let k₁ =
          Kept-same paths st₀ (record st₀ { file = file' }) ready.good refl refl refl refl refl
            ready.good.context in
        let few : uncached paths st₀.module_cache < fuel =
          rw (ready.empty_cache) (omega (arith, lt, uncached_le paths)) in
        Total-bind
          (get_module-Runs paths files classes items (length st₀.functions) ready.below finite fuel
            path _ k₁.good (omega arith) few).total
          λ (m, st₂) (k₂, m_lt).
            Total-bind (start_symbol-Runs m entry_point _ st₂ k₂.good m_lt).total
              λ (symbol, st₃) (k₃, u).
                let noop_there : get_elem? st₃.nodes id ≡ some noop =
                  subst (λ i. get_elem? st₃.nodes i ≡ some noop) (sym zeroth) k₃.good.first_noop in
                returned (k₃.good.stratified, noop_there)

    -- Where the files that can be read are among the `paths` and the fuel is more than their number,
    -- `resolve` gives a result or an error: it does not panic, and the fuel is enough. In the result
    -- the functions call only those before them and `Noop` is the node that is called so.
    pub resolve-IsStratified :
        (fuel : ℕ) (file : VirtualFile PathBuf) (path : PathBuf) (entry_point : Text)
        → length paths < fuel
        → Total
            (λ x. Unit {0})
            (λ (r : ResolveResult P). IsStratified r.ir.functions × HasNoop (context_of r))
            (resolve files classes fuel file path entry_point)
    unfolding resolve
    resolve-IsStratified fuel file path entry_point lt =
        Total-bind {f = resolve_with files classes fuel path entry_point}
          (create_prelude-Ready file)
          λ x (ready, zeroth). resolve_with-Total fuel path entry_point x lt ready zeroth
