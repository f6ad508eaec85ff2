-- ===== src/Snek/Resolver/Calls.antt =====
-- resolver.rs: names, literals and expressions, against the invariant.
use serpentine.Prelude.{
  ℕ, zero, suc, ◌≤◌, ◌<◌, ◌≡◌, refl, sym, subst, Option, none, some, List, [], ◌∷◌, ◌++◌, length,
  get_elem?, get_elem?-append_left, length-append, All, All-mono, Eq, arith, list_eq, nat_eq,
}
use serpentine.Prelude.Map.{lookup, lookup-insert_absent}
use serpentine.Prelude.Outcome.{expect, Total, returned, rejected, Total-bind}
use serpentine.Prelude.Text.{Text}
use serpentine.Snek.Span.{Span, Spanned}
use serpentine.Snek.CompileError.{CompileError}
use serpentine.Snek.Ast
use serpentine.Snek.Ast.{
  Ident, ItemPath, Expression, Nodes, Expressions, number, string, node_expression, chain, node,
  no_nodes, node_cons, no_expressions, expression_cons,
}
use serpentine.Snek.Ir
use serpentine.Snek.Ir.{Function, builtin_function}
use serpentine.Snek.Compiler.Termination.{IsStratified}
use serpentine.Snek.Scope.{
  ScopeItem, module_item, function, label, Scope, found, lookup_item, try_into_module,
  try_into_label, try_into_function,
}
use serpentine.Snek.Resolver.{
  Resolver, StatementContext, in_module, in_function, LiteralKey, new_symbol, emit_in, emit,
  segments, get_item_path, cached_or_emitted, resolve_literal, resolve_label, resolve_function,
  resolve_phantoms, emit_call, with_first, resolve_expression, resolve_chain, resolve_node,
  resolve_arguments, key_eq,
}
use serpentine.Snek.Resolver.Invariant.{
  IsBelow, ItemsBelow, ScopeBelow, ContextBelow, ScopeBelow-mono, ContextBelow-mono,
  ItemsBelow-mono, CallsBelow-push, IsStratified-push, lookup-ItemsBelow, IsGood, Kept, Kept-refl,
  Kept-trans, Runs-after, Runs, Runs-ok, Runs-bind, Runs-lift,
}

-- What is found in a scope leads to what is there.
pub lookup_item-IsBelow :
    (k j : ℕ) (scope : Scope) (name : Text) (s : Span)
    → ScopeBelow k j scope
    → Total (λ x. Unit {0}) (IsBelow k j) (lookup_item scope name s)
unfolding lookup_item
lookup_item-IsBelow k j [] name s h = rejected tt
lookup_item-IsBelow k j (items ∷ parents) name s h =
    go (lookup items name) (λ item e. lookup-ItemsBelow k j items name h.0 e)
      (lookup_item-IsBelow k j parents name s h.1)
  where
    go :
        (o : Option ScopeItem)
        → ((item : ScopeItem) → o ≡ some item → IsBelow k j item)
        → Total (λ x. Unit {0}) (IsBelow k j) (lookup_item parents name s)
        → Total (λ x. Unit {0}) (IsBelow k j) (found o (lookup_item parents name s))
    go none f rest = rest
    go (some item) f rest = returned (f item refl)

try_into_module_lt :
    (k j : ℕ) (item : ScopeItem) (s : Span)
    → IsBelow k j item
    → Total (λ x. Unit {0}) (λ m. m < j) (try_into_module item s)
unfolding try_into_module
try_into_module_lt k j (module_item m) s h = returned h
try_into_module_lt k j (function f) s h = rejected tt
try_into_module_lt k j (label l) s h = rejected tt

try_into_function_lt :
    (k j : ℕ) (item : ScopeItem) (s : Span)
    → IsBelow k j item
    → Total (λ x. Unit {0}) (λ f. f < k) (try_into_function item s)
unfolding try_into_function
try_into_function_lt k j (module_item m) s h = rejected tt
try_into_function_lt k j (function f) s h = returned h
try_into_function_lt k j (label l) s h = rejected tt

pub try_into_label-Total :
    (item : ScopeItem) (s : Span) → Total (λ x. Unit {0}) (λ l. Unit {0}) (try_into_label item s)
unfolding try_into_label
try_into_label-Total (module_item m) s = rejected tt
try_into_label-Total (function f) s = rejected tt
try_into_label-Total (label l) s = returned tt

-- An id below the length of a store is found in it.
pub expect-get_elem? :
    {A : Type 0} (P : A → Type 0) (xs : List A) (i : ℕ)
    → All P xs
    → i < length xs
    → Total {E = CompileError} (λ x. Unit {0}) P (expect (get_elem? xs i))
expect-get_elem? P [] i h lt = absurd (omega arith)
expect-get_elem? P (x ∷ xs) zero h lt = returned h.0
expect-get_elem? P (x ∷ xs) (suc i) h lt = expect-get_elem? P xs i h.1 (omega arith)

-- Nothing more is claimed of the value.
abbrev pub Anything : {A : Type 0} → ℕ → ℕ → A → Type 0
Anything k j a = Unit

module _ {PathBuf P : Type 0} ⦃e : Eq PathBuf⦄ (paths : List PathBuf) where
  segments-Runs :
      (item : ScopeItem) (previous : Span) (is : List Ident) (st : Resolver PathBuf P)
      → IsGood st
      → IsBelow (length st.functions) (length st.modules) item
      → Runs paths IsBelow st (segments item previous is st)
  unfolding segments
  segments-Runs item previous [] st g h = Runs-ok paths (Kept-refl paths st g) h
  segments-Runs item previous ((name, s) ∷ is) st g h = record {
    total =
        Total-bind (try_into_module_lt (length st.functions) (length st.modules) item previous h)
          λ m lt.
            Total-bind
              (expect-get_elem? (ItemsBelow (length st.functions) (length st.modules)) st.modules m
                g.modules lt)
              λ items below.
                Total-bind
                  (lookup_item-IsBelow (length st.functions) (length st.modules) (items ∷ []) name s
                    (below, tt))
                  λ next b. (segments-Runs next s is st g b).total;
  }

  get_item_path-Runs :
      (scope : Scope) (path : ItemPath) (st : Resolver PathBuf P)
      → IsGood st
      → ScopeBelow (length st.functions) (length st.modules) scope
      → Runs paths IsBelow st (get_item_path scope path st)
  unfolding get_item_path
  get_item_path-Runs scope path st g h =
      Runs-bind paths
        (Runs-lift paths IsBelow st g (lookup_item-IsBelow _ _ scope path.base.0 path.base.1 h))
        λ (item, st') k b. segments-Runs item path.base.1 path.rest st' k.good b

  -- The scope of a run, in a later state.
  pub ScopeBelow-Kept :
      (scope : Scope) {st st' : Resolver PathBuf P}
      → Kept paths st st'
      → ScopeBelow (length st.functions) (length st.modules) scope
      → ScopeBelow (length st'.functions) (length st'.modules) scope
  ScopeBelow-Kept scope k h = ScopeBelow-mono scope k.functions_le k.modules_le h

  resolve_label-Runs :
      (scope : Scope) (path : ItemPath) (s : Span) (st : Resolver PathBuf P)
      → IsGood st
      → ScopeBelow (length st.functions) (length st.modules) scope
      → Runs paths Anything st (resolve_label scope path s st)
  unfolding resolve_label
  resolve_label-Runs scope path s st g h =
      Runs-bind paths (get_item_path-Runs scope path st g h)
        λ (item, st') k b. Runs-lift paths Anything st' k.good (try_into_label-Total item s)

  resolve_function-Runs :
      (scope : Scope) (path : ItemPath) (s : Span) (st : Resolver PathBuf P)
      → IsGood st
      → ScopeBelow (length st.functions) (length st.modules) scope
      → Runs paths (λ k j f. f < k) st (resolve_function scope path s st)
  unfolding resolve_function
  resolve_function-Runs scope path s st g h =
      Runs-bind paths (get_item_path-Runs scope path st g h) λ (item, st') k b.
        Runs-lift paths (λ k j f. f < k) st' k.good
          (try_into_function_lt _ (length st'.modules) item s b)

  resolve_phantoms-Runs :
      (scope : Scope) (ps : List (Spanned ItemPath)) (st : Resolver PathBuf P)
      → IsGood st
      → ScopeBelow (length st.functions) (length st.modules) scope
      → Runs paths Anything st (resolve_phantoms scope ps st)
  unfolding resolve_phantoms
  resolve_phantoms-Runs scope [] st g h = Runs-ok paths (Kept-refl paths st g) tt
  resolve_phantoms-Runs scope ((path, s) ∷ ps) st g h =
      Runs-bind paths (resolve_label-Runs scope path s st g h) λ (symbol, st₁) k b.
        Runs-bind paths (resolve_phantoms-Runs scope ps st₁ k.good (ScopeBelow-Kept scope k h))
          λ (symbols, st₂) k' b'. Runs-ok paths (Kept-refl paths st₂ k'.good) tt

  -- A state that has the stores of the one before and a good context.
  pub Kept-same :
      (st st' : Resolver PathBuf P)
      → IsGood st
      → st'.functions ≡ st.functions
      → st'.modules ≡ st.modules
      → st'.nodes ≡ st.nodes
      → st'.module_cache ≡ st.module_cache
      → st'.cached_literals ≡ st.cached_literals
      → ContextBelow (length st.functions) (length st.modules) st'.context
      → Kept paths st st'
  Kept-same st st' g f m n c l h = record {
    good = record {
      stratified = subst IsStratified (sym f) g.stratified;
      modules = rw (f, m) g.modules;
      context = rw (f, m) h;
      first_noop = rw n g.first_noop;
      cache = rw (m, c) g.cache;
    };
    functions_le = rw f (omega arith);
    modules_le = rw m (omega arith);
    uncached_le = rw c (omega arith);
    cache_kept = λ q o p. rw c p;
    literals_kept = λ key symbol p. rw l p;
  }

  pub new_symbol-Runs :
      (st : Resolver PathBuf P) → IsGood st → Runs paths Anything st (new_symbol st)
  unfolding new_symbol
  new_symbol-Runs st g = Runs-ok paths (Kept-same st _ g refl refl refl refl refl g.context) tt

  emit-Runs :
      (n : Ir.Node) (st : Resolver PathBuf P)
      → IsGood st
      → n.function < length st.functions
      → Runs paths Anything st (emit n st)
  unfolding emit
  emit-Runs n st g lt = go st.context g.context
    where
      go :
          (c : StatementContext)
          → ContextBelow (length st.functions) (length st.modules) c
          → Runs paths Anything st (emit_in c n st)
      go (in_module exports) h =
          Runs-ok paths (Kept-same st _ g refl refl refl refl refl g.context) tt
      go (in_function value body) h =
          Runs-ok paths (Kept-same st _ g refl refl refl refl refl (CallsBelow-push body n h lt)) tt

  emit_call-Runs :
      (f : ℕ) (arguments phantoms : List ℕ) (s : Span) (st : Resolver PathBuf P)
      → IsGood st
      → f < length st.functions
      → Runs paths Anything st (emit_call f arguments phantoms s st)
  unfolding emit_call
  emit_call-Runs f arguments phantoms s st g lt =
      let k =
        Kept-same st (record st { next_symbol_id = suc st.next_symbol_id }) g refl refl refl refl
          refl g.context in
      Runs-after paths k (
        Runs-bind paths (emit-Runs _ _ k.good lt)
          λ (u, st₂) k' b'. Runs-ok paths (Kept-refl paths st₂ k'.good) tt)

  pub resolve_literal-Runs :
      (key : LiteralKey) (s : Span) (st : Resolver PathBuf P)
      → IsGood st
      → Runs paths Anything st (resolve_literal key s st)
  unfolding resolve_literal
  resolve_literal-Runs key s st g = go (lookup st.cached_literals key) refl
    where
      more : length st.functions ≤ length (st.functions ++ builtin_function (length st.nodes) ∷ [])
      more = rw (length-append st.functions (builtin_function (length st.nodes) ∷ [])) (omega arith)

      go :
          (o : Option ℕ)
          → lookup st.cached_literals key ≡ o
          → Runs paths Anything st (cached_or_emitted key s o st)
      go (some symbol) there = Runs-ok paths (Kept-refl paths st g) tt
      go none absent =
          Runs-ok paths
            (record {
              good = record {
                stratified = IsStratified-push st.functions _ g.stratified tt;
                modules =
                    All-mono (λ items b. ItemsBelow-mono items more (omega arith) b) st.modules
                      g.modules;
                context = ContextBelow-mono st.context more (omega arith) g.context;
                first_noop = get_elem?-append_left st.nodes _ 0 g.first_noop;
                cache = g.cache;
              };
              functions_le = more;
              modules_le = omega arith;
              uncached_le = omega arith;
              cache_kept = λ q o p. p;
              literals_kept = λ other symbol p.
                  lookup-insert_absent st.cached_literals key other st.next_symbol_id absent p;
            })
            tt

  mutual
    unfolding resolve_expression resolve_chain resolve_node resolve_arguments

    pub resolve_expression-Runs :
        (scope : Scope) (t : Expression) (st : Resolver PathBuf P)
        → IsGood st
        → ScopeBelow (length st.functions) (length st.modules) scope
        → Runs paths Anything st (resolve_expression scope t st)
    resolve_expression-Runs scope (number n s) st g h =
        resolve_literal-Runs (LiteralKey.int n) s st g
    resolve_expression-Runs scope (string t s) st g h =
        resolve_literal-Runs (LiteralKey.str t) s st g
    resolve_expression-Runs scope (Expression.label path s) st g h =
        resolve_label-Runs scope path s st g h
    resolve_expression-Runs scope (node_expression n s) st g h =
        resolve_node-Runs scope none n s st g h
    resolve_expression-Runs scope (chain start ns s) st g h =
        Runs-bind paths (resolve_expression-Runs scope start st g h) λ (current, st') k b.
          resolve_chain-Runs scope current ns st' k.good (ScopeBelow-Kept scope k h)

    resolve_chain-Runs :
        (scope : Scope) (current : ℕ) (ns : Nodes) (st : Resolver PathBuf P)
        → IsGood st
        → ScopeBelow (length st.functions) (length st.modules) scope
        → Runs paths Anything st (resolve_chain scope current ns st)
    resolve_chain-Runs scope current no_nodes st g h = Runs-ok paths (Kept-refl paths st g) tt
    resolve_chain-Runs scope current (node_cons n s ns) st g h =
        Runs-bind paths (resolve_node-Runs scope (some current) n s st g h)
          λ (next, st') k b. resolve_chain-Runs scope next ns st' k.good (ScopeBelow-Kept scope k h)

    resolve_node-Runs :
        (scope : Scope) (first : Option ℕ) (n : Ast.Node) (s : Span) (st : Resolver PathBuf P)
        → IsGood st
        → ScopeBelow (length st.functions) (length st.modules) scope
        → Runs paths Anything st (resolve_node scope first n s st)
    resolve_node-Runs scope first (node path path_s arguments phantoms) s st g h =
        Runs-bind paths (resolve_function-Runs scope path path_s st g h) λ (f, st₁) k lt.
          Runs-bind paths
            (resolve_phantoms-Runs scope phantoms st₁ k.good (ScopeBelow-Kept scope k h))
            λ (ps, st₂) k₂ b₂.
              let h₂ = ScopeBelow-Kept scope (Kept-trans paths k k₂) h in
              Runs-bind paths (resolve_arguments-Runs scope arguments st₂ k₂.good h₂)
                λ (symbols, st₃) k₃ b₃.
                  emit_call-Runs f (with_first first symbols) ps s st₃ k₃.good
                    (omega (arith, lt, k₂.functions_le, k₃.functions_le))

    resolve_arguments-Runs :
        (scope : Scope) (es : Expressions) (st : Resolver PathBuf P)
        → IsGood st
        → ScopeBelow (length st.functions) (length st.modules) scope
        → Runs paths Anything st (resolve_arguments scope es st)
    resolve_arguments-Runs scope no_expressions st g h = Runs-ok paths (Kept-refl paths st g) tt
    resolve_arguments-Runs scope (expression_cons t es) st g h =
        Runs-bind paths (resolve_expression-Runs scope t st g h) λ (symbol, st₁) k b.
          Runs-bind paths (resolve_arguments-Runs scope es st₁ k.good (ScopeBelow-Kept scope k h))
            λ (symbols, st₂) k' b'. Runs-ok paths (Kept-refl paths st₂ k'.good) tt
