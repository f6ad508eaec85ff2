-- ===== src/Snek/Resolver/Invariant.antt =====
-- resolver.rs: the invariant of the resolver's state, and runs as to that invariant.
use serpentine.Prelude.{
  ℕ, zero, suc, ◌+◌, ◌≤◌, ◌<◌, ◌≡◌, sym, subst, Bool, true, false, Option, none, some, List, [],
  ◌∷◌, ◌++◌, length, get_elem?, get_elem?-append_cases, All, All-mono, Eq, ◌==◌, list_eq, nat_eq,
  arith, inl, inr, if◌then◌else◌,
}
use serpentine.Prelude.Map.{Map, lookup, insert, All-lookup}
use serpentine.Prelude.Outcome.{
  Outcome, ok, err, bind, Total, returned, rejected, Total-bind, Total-mono,
}
use serpentine.Prelude.Text.{Text}
use serpentine.Engine.Nodes.{noop}
use serpentine.Snek.CompileError.{CompileError}
use serpentine.Snek.Ir
use serpentine.Snek.Ir.{Body, Function, builtin_function, custom}
use serpentine.Snek.Compiler.Termination.{CallsBelow, FunctionCallsBelow, IsStratified}
use serpentine.Snek.Scope.{ScopeItem, module_item, function, label, Items, Scope}
use serpentine.Snek.Resolver.{
  Resolver, StatementContext, in_module, in_function, LiteralKey, key_eq,
}

-- The function or module that an item names is one of the first `k` functions or `j` modules.
abbrev pub IsBelow : ℕ → ℕ → ScopeItem → Type 0
IsBelow k j (function f) = f < k
IsBelow k j (module_item m) = m < j
IsBelow k j (label l) = Unit

abbrev pub ItemsBelow : ℕ → ℕ → Items → Type 0
ItemsBelow k j items = All (λ (x : Text × ScopeItem). IsBelow k j x.1) items

abbrev pub ScopeBelow : ℕ → ℕ → Scope → Type 0
ScopeBelow k j scope = All (ItemsBelow k j) scope

abbrev pub ContextBelow : ℕ → ℕ → StatementContext → Type 0
ContextBelow k j (in_module exports) = ItemsBelow k j exports
ContextBelow k j (in_function value body) = CallsBelow k body

pub IsBelow-mono :
    {k k' j j' : ℕ} (item : ScopeItem) → k ≤ k' → j ≤ j' → IsBelow k j item → IsBelow k' j' item
IsBelow-mono (function f) p q h = omega arith
IsBelow-mono (module_item m) p q h = omega arith
IsBelow-mono (label l) p q h = tt

pub ItemsBelow-mono :
    {k k' j j' : ℕ} (items : Items)
    → k ≤ k'
    → j ≤ j'
    → ItemsBelow k j items
    → ItemsBelow k' j' items
ItemsBelow-mono items p q h = All-mono (λ x b. IsBelow-mono x.1 p q b) items h

pub ScopeBelow-mono :
    {k k' j j' : ℕ} (scope : Scope)
    → k ≤ k'
    → j ≤ j'
    → ScopeBelow k j scope
    → ScopeBelow k' j' scope
ScopeBelow-mono scope p q h = All-mono (λ items b. ItemsBelow-mono items p q b) scope h

pub CallsBelow-mono : {k k' : ℕ} (body : Body) → k ≤ k' → CallsBelow k body → CallsBelow k' body
CallsBelow-mono body p h = All-mono (λ n b. omega arith) body h

pub CallsBelow-push :
    {k : ℕ} (body : Body) (n : Ir.Node)
    → CallsBelow k body
    → n.function < k
    → CallsBelow k (body ++ n ∷ [])
CallsBelow-push [] n h lt = (lt, tt)
CallsBelow-push (m ∷ body) n h lt = (h.0, CallsBelow-push body n h.1 lt)

pub ContextBelow-mono :
    {k k' j j' : ℕ} (c : StatementContext)
    → k ≤ k'
    → j ≤ j'
    → ContextBelow k j c
    → ContextBelow k' j' c
ContextBelow-mono (in_module exports) p q h = ItemsBelow-mono exports p q h
ContextBelow-mono (in_function value body) p q h = CallsBelow-mono body p h

abbrev pub EntryBelow : ℕ → Option ℕ → Type 0
EntryBelow j none = Unit
EntryBelow j (some m) = m < j

EntryBelow-mono : {j j' : ℕ} (o : Option ℕ) → j ≤ j' → EntryBelow j o → EntryBelow j' o
EntryBelow-mono none q h = tt
EntryBelow-mono (some m) q h = omega arith

-- A function that calls only those before it may be pushed.
pub IsStratified-push :
    (functions : List Function) (f : Function)
    → IsStratified functions
    → FunctionCallsBelow (length functions) f
    → IsStratified (functions ++ f ∷ [])
IsStratified-push functions f h b k g e = elim (get_elem?-append_cases functions f k e) [
  | inl old ↦ h k g old
  | inr (p, q) ↦
      subst (λ g. FunctionCallsBelow k g) q (subst (λ k. FunctionCallsBelow k f) (sym p) b)
]

pub lookup-ItemsBelow :
    (k j : ℕ) (items : Items) (name : Text) {item : ScopeItem}
    → ItemsBelow k j items
    → lookup items name ≡ some item
    → IsBelow k j item
lookup-ItemsBelow k j items name h e = All-lookup (IsBelow k j) items name h e

abbrev missing : Option (Option ℕ) → ℕ
missing none = 1
missing (some _) = 0

-- How many of the paths are not in the cache.
abbrev pub uncached :
    {PathBuf : Type 0} ⦃e : Eq PathBuf⦄ → List PathBuf → Map PathBuf (Option ℕ) → ℕ
uncached [] cache = 0
uncached (p ∷ paths) cache = missing (lookup cache p) + uncached paths cache

module _ {PathBuf : Type 0} ⦃e : Eq PathBuf⦄ where
  missing-insert :
      (cache : Map PathBuf (Option ℕ)) (q p : PathBuf) (v : Option ℕ)
      → missing (lookup (insert cache q v) p) ≤ missing (lookup cache p)
  missing-insert cache q p v = go (q == p) (lookup cache p)
    where
      go : (b : Bool) (o : Option (Option ℕ)) → missing (if b then some v else o) ≤ missing o
      go true none = omega arith
      go true (some w) = omega arith
      go false o = omega arith

  pub uncached-insert :
      (paths : List PathBuf) (cache : Map PathBuf (Option ℕ)) (q : PathBuf) (v : Option ℕ)
      → uncached paths (insert cache q v) ≤ uncached paths cache
  uncached-insert [] cache q v = omega arith
  uncached-insert (p ∷ paths) cache q v =
      omega (arith, missing-insert cache q p v, uncached-insert paths cache q v)

  -- A path that was not in the cache counts no more once it is.
  pub uncached-insert_lt :
      (paths : List PathBuf) (cache : Map PathBuf (Option ℕ)) (q : PathBuf) (v : Option ℕ) (i : ℕ)
      → get_elem? paths i ≡ some q
      → lookup cache q ≡ none
      → uncached paths (insert cache q v) < uncached paths cache
  uncached-insert_lt [] cache q v i h n = cc
  uncached-insert_lt (p ∷ paths) cache q v zero h n =
      let same : p ≡ q = cc in
      let there : (q == p) ≡ true = (e.is_eq_iff q p).1 (sym same) in
      let absent : lookup cache p ≡ none = subst (λ r. lookup cache r ≡ none) (sym same) n in
      rw (there, absent) (omega (arith, uncached-insert paths cache q v))
  uncached-insert_lt (p ∷ paths) cache q v (suc i) h n =
      omega (arith, missing-insert cache q p v, uncached-insert_lt paths cache q v i h n)

module _ {PathBuf : Type 0} where
  -- The module that a path stands for in the cache is one of the first `j`.
  abbrev pub CacheBelow : ℕ → Map PathBuf (Option ℕ) → Type 0
  CacheBelow j cache = All (λ (x : PathBuf × Option ℕ). EntryBelow j x.1) cache

  pub CacheBelow-mono :
      {j j' : ℕ} (cache : Map PathBuf (Option ℕ))
      → j ≤ j'
      → CacheBelow j cache
      → CacheBelow j' cache
  CacheBelow-mono cache q h = All-mono (λ x b. EntryBelow-mono x.1 q b) cache h

module _ {PathBuf P : Type 0} where
  -- Functions call only those before them, every name and every path of the cache leads to
  -- a function or a module that is there, and the first node is `Noop`.
  pub record IsGood (st : Resolver PathBuf P) : Type 0 where
    pub stratified : IsStratified st.functions
    pub modules : All (ItemsBelow (length st.functions) (length st.modules)) st.modules
    pub context : ContextBelow (length st.functions) (length st.modules) st.context
    pub first_noop : get_elem? st.nodes 0 ≡ some noop
    pub cache : CacheBelow (length st.modules) st.module_cache

module _ {PathBuf P : Type 0} ⦃e : Eq PathBuf⦄ (paths : List PathBuf) where
  -- What a run keeps: the invariant, the stores grow, fewer paths are uncached, and what the caches
  -- hold of a path or a literal stays, also that the module of a path is being resolved.
  pub record Kept (st st' : Resolver PathBuf P) : Type 0 where
    pub good : IsGood st'
    pub functions_le : length st.functions ≤ length st'.functions
    pub modules_le : length st.modules ≤ length st'.modules
    pub uncached_le : uncached paths st'.module_cache ≤ uncached paths st.module_cache
    pub cache_kept :
        (q : PathBuf) (o : Option ℕ)
        → lookup st.module_cache q ≡ some o
        → lookup st'.module_cache q ≡ some o
    pub literals_kept :
        (key : LiteralKey) (symbol : ℕ)
        → lookup st.cached_literals key ≡ some symbol
        → lookup st'.cached_literals key ≡ some symbol

  pub Kept-refl : (st : Resolver PathBuf P) → IsGood st → Kept st st
  Kept-refl st g = record {
    good = g;
    functions_le = omega arith;
    modules_le = omega arith;
    uncached_le = omega arith;
    cache_kept = λ q o h. h;
    literals_kept = λ key symbol h. h;
  }

  pub Kept-trans : {a b c : Resolver PathBuf P} → Kept a b → Kept b c → Kept a c
  Kept-trans k l = record {
    good = l.good;
    functions_le = omega (arith, k.functions_le, l.functions_le);
    modules_le = omega (arith, k.modules_le, l.modules_le);
    uncached_le = omega (arith, k.uncached_le, l.uncached_le);
    cache_kept = λ q o h. l.cache_kept q o (k.cache_kept q o h);
    literals_kept = λ key symbol h. l.literals_kept key symbol (k.literals_kept key symbol h);
  }

  -- The run does not panic and fuel suffices; where it returns, the invariant holds and `Q` of the
  -- numbers of functions and modules and of the value.
  pub record Runs {A : Type 0} (Q : ℕ → ℕ → A → Type 0) (st : Resolver PathBuf P)
      (r : Outcome CompileError (A × Resolver PathBuf P)) : Type 0 where
    pub total :
        Total {A = A × Resolver PathBuf P}
          (λ x. Unit {0})
          (λ (a, st'). Kept st st' × Q (length st'.functions) (length st'.modules) a)
          r

  pub Runs-ok :
      {A : Type 0} {Q : ℕ → ℕ → A → Type 0} {st st' : Resolver PathBuf P} {a : A}
      → Kept st st'
      → Q (length st'.functions) (length st'.modules) a
      → Runs Q st (ok (a, st'))
  Runs-ok k q = record { total = returned (k, q) }

  pub Runs-err :
      {A : Type 0} {Q : ℕ → ℕ → A → Type 0} {st : Resolver PathBuf P} {x : CompileError}
      → Runs {A = A} Q st (err x)
  Runs-err = record { total = rejected tt }

  pub Runs-bind :
      {A B : Type 0} {Q : ℕ → ℕ → A → Type 0} {R : ℕ → ℕ → B → Type 0} {st : Resolver PathBuf P}
      {r : Outcome CompileError (A × Resolver PathBuf P)}
      {f : A × Resolver PathBuf P → Outcome CompileError (B × Resolver PathBuf P)}
      → Runs Q st r
      → ((x : A × Resolver PathBuf P)
          → Kept st x.1
          → Q (length x.1.functions) (length x.1.modules) x.0
          → Runs R x.1 (f x))
      → Runs R st (bind r f)
  Runs-bind run k = record {
    total = Total-bind run.total λ (a, st') (kept, q).
        Total-mono (λ (b, st'') (kept', r). (Kept-trans kept kept', r)) (k (a, st') kept q).total;
  }

  -- A run from a later state.
  pub Runs-after :
      {A : Type 0} {Q : ℕ → ℕ → A → Type 0} {st st' : Resolver PathBuf P}
      {r : Outcome CompileError (A × Resolver PathBuf P)}
      → Kept st st'
      → Runs Q st' r
      → Runs Q st r
  Runs-after k run = record {
    total = Total-mono (λ (a, st'') (kept, q). (Kept-trans k kept, q)) run.total;
  }

  pub Runs-lift :
      {A : Type 0} (Q : ℕ → ℕ → A → Type 0) (st : Resolver PathBuf P) {r : Outcome CompileError A}
      → IsGood st
      → Total (λ x. Unit {0}) (Q (length st.functions) (length st.modules)) r
      → Runs Q st (bind r (λ a. ok (a, st)))
  Runs-lift Q st g t = record { total = Total-bind t λ a q. returned (Kept-refl st g, q) }
