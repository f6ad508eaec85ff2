-- ===== src/Snek/Resolver/Bodies.antt =====
-- resolver.rs: statements, parameters and bodies, against the invariant.
use serpentine.Prelude.{
  ℕ, suc, ◌≤◌, ◌<◌, refl, Option, none, some, List, [], ◌∷◌, ◌++◌, length, length-append, All,
  All-mono, Eq, arith, list_eq, nat_eq,
}
use serpentine.Prelude.Outcome.{Outcome, Total, returned, rejected, Total-bind}
use serpentine.Prelude.Text.{Text}
use serpentine.Snek.Span.{Span}
use serpentine.Snek.CompileError.{CompileError}
use serpentine.Snek.Ast.{
  Ident, Expression, Statement, Statements, return_statement, import_statement, label_statement,
  function_statement, no_statements, statement_cons,
}
use serpentine.Snek.Ir.{Body, Function, custom}
use serpentine.Snek.Compiler.Termination.{CallsBelow, FunctionCallsBelow}
use serpentine.Snek.Scope.{ScopeItem, module_item, function, label, Scope, child, insert_item}
use serpentine.Snek.Resolver.{
  Files, Resolver, StatementContext, in_module, in_function, M, export, export_in, set_return_value,
  return_in, resolve_expression,
}
use serpentine.Snek.Resolver.Statements.{
  body_of, return_of, with_context, declare_required, declare_defaults, push_function, imported,
  import_path, bind_item, resolve_statement, resolve_statements,
}
use serpentine.Snek.Resolver.Invariant.{
  IsBelow, IsBelow-mono, ScopeBelow, ItemsBelow-mono, ContextBelow, ContextBelow-mono,
  CallsBelow-mono, IsStratified-push, uncached, IsGood, Kept, Kept-refl, Kept-trans, Runs, Runs-ok,
  Runs-err, Runs-bind, Runs-after, Runs-lift,
}
use serpentine.Snek.Resolver.Calls.{Anything, ScopeBelow-Kept, Kept-same, resolve_expression-Runs}

insert_item-ScopeBelow :
    (k j : ℕ) (scope : Scope) (name : Text) (item : ScopeItem)
    → ScopeBelow k j scope
    → IsBelow k j item
    → ScopeBelow k j (insert_item scope name item)
insert_item-ScopeBelow k j [] name item h b = tt
insert_item-ScopeBelow k j (items ∷ parents) name item h b = ((b, h.0), h.1)

body_of-CallsBelow :
    (k j : ℕ) (c : StatementContext) → ContextBelow k j c → CallsBelow k (body_of c)
body_of-CallsBelow k j (in_module exports) h = tt
body_of-CallsBelow k j (in_function value body) h = h

return_of-Total :
    (c : StatementContext) (s : Span) → Total (λ x. Unit {0}) (λ v. Unit {0}) (return_of c s)
return_of-Total (in_function (some value) body) s = returned tt
return_of-Total (in_function none body) s = rejected tt
return_of-Total (in_module exports) s = rejected tt

abbrev DefaultsBelow : ℕ → ℕ → Scope × List (ℕ × ℕ × Body) → Type 0
DefaultsBelow k j x = ScopeBelow k j x.0 × All (λ (d : ℕ × ℕ × Body). CallsBelow k d.2) x.1

module _ {PathBuf P : Type 0} ⦃e : Eq PathBuf⦄ (paths : List PathBuf) where
  -- What runs in a context of its own gives a context that is as good, and the one before stands.
  pub with_context-Runs :
      {A : Type 0} (Q : ℕ → ℕ → A → Type 0) (c : StatementContext) (m : M PathBuf P A)
      (st : Resolver PathBuf P)
      → IsGood st
      → ContextBelow (length st.functions) (length st.modules) c
      → ((st' : Resolver PathBuf P) → Kept paths st st' → Runs paths Q st' (m st'))
      → Runs paths (λ k j x. Q k j x.0 × ContextBelow k j x.1) st (with_context c m st)
  with_context-Runs Q c m st g h run =
      let k = Kept-same paths st (record st { context = c }) g refl refl refl refl refl h in
      Runs-after paths k (record {
        total = Total-bind (run (record st { context = c }) k).total λ (a, st') (kept, q).
            let g' = kept.good in
            returned (
              record {
                good = record {
                  stratified = g'.stratified;
                  modules = g'.modules;
                  context =
                      ContextBelow-mono st.context kept.functions_le kept.modules_le g.context;
                  first_noop = g'.first_noop;
                  cache = g'.cache;
                };
                functions_le = kept.functions_le;
                modules_le = kept.modules_le;
                uncached_le = kept.uncached_le;
                cache_kept = kept.cache_kept;
                literals_kept = kept.literals_kept;
              },
              (q, g'.context),
            );
      })

  export-Runs :
      (export_kw : Option Span) (name : Text) (item : ScopeItem) (st : Resolver PathBuf P)
      → IsGood st
      → IsBelow (length st.functions) (length st.modules) item
      → Runs paths Anything st (export export_kw name item st)
  unfolding export
  export-Runs none name item st g b = Runs-ok paths (Kept-refl paths st g) tt
  export-Runs (some s) name item st g b = go st.context g.context
    where
      go :
          (c : StatementContext)
          → ContextBelow (length st.functions) (length st.modules) c
          → Runs paths Anything st (export_in c name item s st)
      go (in_module exports) h =
          Runs-ok paths (Kept-same paths st _ g refl refl refl refl refl (b, h)) tt
      go (in_function value body) h = Runs-err paths

  set_return_value-Runs :
      (value : ℕ) (s : Span) (st : Resolver PathBuf P)
      → IsGood st
      → Runs paths Anything st (set_return_value value s st)
  unfolding set_return_value
  set_return_value-Runs value s st g = go st.context g.context
    where
      go :
          (c : StatementContext)
          → ContextBelow (length st.functions) (length st.modules) c
          → Runs paths Anything st (return_in c value s st)
      go (in_module exports) h = Runs-err paths
      go (in_function (some v) body) h = Runs-err paths
      go (in_function none body) h =
          Runs-ok paths (Kept-same paths st _ g refl refl refl refl refl h) tt

  bind_item-Runs :
      (export_kw : Option Span) (scope : Scope) (name : Text) (item : ScopeItem)
      (st : Resolver PathBuf P)
      → IsGood st
      → ScopeBelow (length st.functions) (length st.modules) scope
      → IsBelow (length st.functions) (length st.modules) item
      → Runs paths ScopeBelow st (bind_item export_kw scope name item st)
  bind_item-Runs export_kw scope name item st g h b =
      Runs-bind paths (export-Runs export_kw name item st g b) λ (u, st') k b'.
        Runs-ok paths (Kept-refl paths st' k.good) (
          insert_item-ScopeBelow _ _ scope name item (ScopeBelow-Kept paths scope k h)
            (IsBelow-mono item k.functions_le k.modules_le b))

  -- The symbol that a call of `new_symbol` leaves.
  symbol-Kept :
      (st : Resolver PathBuf P)
      → IsGood st
      → Kept paths st (record st { next_symbol_id = suc st.next_symbol_id })
  symbol-Kept st g = Kept-same paths st _ g refl refl refl refl refl g.context

  declare_required-Runs :
      (scope : Scope) (names : List Ident) (st : Resolver PathBuf P)
      → IsGood st
      → ScopeBelow (length st.functions) (length st.modules) scope
      → Runs paths (λ k j x. ScopeBelow k j x.0) st (declare_required scope names st)
  unfolding declare_required
  declare_required-Runs scope [] st g h = Runs-ok paths (Kept-refl paths st g) h
  declare_required-Runs scope (name ∷ names) st g h =
      let k = symbol-Kept st g in
      let scope' = insert_item scope name.0 (label st.next_symbol_id) in
      let h' = insert_item-ScopeBelow _ _ scope name.0 (label st.next_symbol_id) h tt in
      Runs-after paths k (
        Runs-bind paths (declare_required-Runs scope' names _ k.good h')
          λ (x, st') k' h''. Runs-ok paths (Kept-refl paths st' k'.good) h'')

  declare_defaults-Runs :
      (scope : Scope) (ps : List (Ident × Expression)) (st : Resolver PathBuf P)
      → IsGood st
      → ScopeBelow (length st.functions) (length st.modules) scope
      → Runs paths DefaultsBelow st (declare_defaults scope ps st)
  unfolding declare_defaults
  declare_defaults-Runs scope [] st g h = Runs-ok paths (Kept-refl paths st g) (h, tt)
  declare_defaults-Runs scope ((name, default) ∷ ps) st g h =
      Runs-bind paths
        (with_context-Runs Anything (in_function none []) (resolve_expression scope default) st g tt
          λ st' k.
            resolve_expression-Runs paths scope default st' k.good
              (ScopeBelow-Kept paths scope k h))
        λ ((v, c), st₁) k₁ q.
          let k = symbol-Kept st₁ k₁.good in
          let scope' = insert_item scope name.0 (label st₁.next_symbol_id) in
          let h' =
            insert_item-ScopeBelow _ _ scope name.0 (label st₁.next_symbol_id)
              (ScopeBelow-Kept paths scope k₁ h) tt in
          Runs-after paths k (
            Runs-bind paths (declare_defaults-Runs scope' ps _ k.good h') λ (x, st') k' b'.
              Runs-ok paths (Kept-refl paths st' k'.good)
                (b'.0, (CallsBelow-mono _ k'.functions_le (body_of-CallsBelow _ _ c q.1), b'.1)))

  push_function-Runs :
      (f : Function) (st : Resolver PathBuf P)
      → IsGood st
      → FunctionCallsBelow (length st.functions) f
      → Runs paths (λ k j id. id < k) st (push_function f st)
  unfolding push_function
  push_function-Runs f st g h =
      let more : length st.functions < length (st.functions ++ f ∷ []) =
        rw (length-append st.functions (f ∷ [])) (omega arith) in
      Runs-ok paths
        (record {
          good = record {
            stratified = IsStratified-push st.functions f g.stratified h;
            modules =
                All-mono (λ items b. ItemsBelow-mono items (omega (arith, more)) (omega arith) b)
                  st.modules g.modules;
            context = ContextBelow-mono st.context (omega (arith, more)) (omega arith) g.context;
            first_noop = g.first_noop;
            cache = g.cache;
          };
          functions_le = omega (arith, more);
          modules_le = omega arith;
          uncached_le = omega arith;
          cache_kept = λ q o p. p;
          literals_kept = λ key symbol p. p;
        })
        more

  imported-Runs :
      (Q : ℕ → ℕ → ℕ → Type 0) (path : Text) (s : Span) (st : Resolver PathBuf P)
      {r : Outcome CompileError (ℕ × Resolver PathBuf P)}
      → Runs paths Q st r
      → Runs paths Q st (imported path s r)
  imported-Runs Q path s st run = record { total = go run.total }
    where
      go :
          {r : Outcome CompileError (ℕ × Resolver PathBuf P)}
          → Total
              (λ x. Unit {0})
              (λ (a, st'). Kept paths st st' × Q (length st'.functions) (length st'.modules) a)
              r
          → Total
              (λ x. Unit {0})
              (λ (a, st'). Kept paths st st' × Q (length st'.functions) (length st'.modules) a)
              (imported path s r)
      go (returned q) = returned q
      go (rejected q) = rejected tt

-- `get` runs where fewer than `bound` of the paths are uncached.
module _ {PathBuf P : Type 0} ⦃e : Eq PathBuf⦄ (paths : List PathBuf) (files : Files PathBuf)
    (get : PathBuf → M PathBuf P ℕ) (current : PathBuf) (n bound : ℕ)
    (get-Runs : (path : PathBuf) (st : Resolver PathBuf P)
      → IsGood st
      → n ≤ length st.functions
      → uncached paths st.module_cache < bound
      → Runs paths (λ k j m. m < j) st (get path st)) where
  mutual
    unfolding resolve_statement resolve_statements

    resolve_statement-Runs :
        (scope : Scope) (t : Statement) (st : Resolver PathBuf P)
        → IsGood st
        → n ≤ length st.functions
        → uncached paths st.module_cache < bound
        → ScopeBelow (length st.functions) (length st.modules) scope
        → Runs paths ScopeBelow st (resolve_statement files get current scope t st)
    resolve_statement-Runs scope (import_statement export_kw path name) st g le u h =
        Runs-bind paths
          (imported-Runs paths (λ k j m. m < j) _ path.1 st
            (get-Runs (import_path files get current path.0) st g le u))
          λ (m, st') k lt.
            bind_item-Runs paths export_kw scope name.0 (module_item m) st' k.good
              (ScopeBelow-Kept paths scope k h) lt
    resolve_statement-Runs scope (return_statement return_kw t) st g le u h =
        Runs-bind paths (resolve_expression-Runs paths scope t st g h) λ (value, st₁) k b.
          Runs-bind paths (set_return_value-Runs paths value return_kw st₁ k.good) λ (v, st₂) k' b'.
            Runs-ok paths (Kept-refl paths st₂ k'.good)
              (ScopeBelow-Kept paths scope (Kept-trans paths k k') h)
    resolve_statement-Runs scope (label_statement export_kw t name) st g le u h =
        Runs-bind paths (resolve_expression-Runs paths scope t st g h) λ (value, st') k b.
          bind_item-Runs paths export_kw scope name.0 (label value) st' k.good
            (ScopeBelow-Kept paths scope k h) tt
    resolve_statement-Runs scope (function_statement export_kw name required defaults ss) st g le u
          h =
        Runs-bind paths (declare_required-Runs paths (child scope) required st g (tt, h))
          λ ((scope₁, rs), st₁) k₁ h₁.
            Runs-bind paths (declare_defaults-Runs paths scope₁ defaults st₁ k₁.good h₁)
              λ ((scope₂, ds), st₂) k₂ b₂.
                let k₁₂ = Kept-trans paths k₁ k₂ in
                Runs-bind paths
                  (with_context-Runs paths ScopeBelow (in_function none [])
                    (resolve_statements files get current scope₂ ss) st₂ k₂.good tt
                    λ st' k.
                      resolve_statements-Runs scope₂ ss st' k.good
                        (omega (arith, le, k₁₂.functions_le, k.functions_le))
                        (omega (arith, u, k₁₂.uncached_le, k.uncached_le))
                        (ScopeBelow-Kept paths scope₂ k b₂.0))
                  λ ((scope₃, c), st₃) k₃ b₃.
                    Runs-bind paths
                      (Runs-lift paths Anything st₃ k₃.good (return_of-Total c name.1))
                      λ (value, st₄) k₄ b₄.
                        let k₁₄ = Kept-trans paths k₁₂ (Kept-trans paths k₃ k₄) in
                        let defaults_below =
                          All-mono
                            (λ d b.
                              CallsBelow-mono d.2 (omega (arith, k₃.functions_le, k₄.functions_le))
                                b)
                            ds b₂.1 in
                        let body_below =
                          CallsBelow-mono _ k₄.functions_le (body_of-CallsBelow _ _ c b₃.1) in
                        Runs-bind paths
                          (push_function-Runs paths (custom rs ds (body_of c) value) st₄ k₄.good
                            (defaults_below, body_below))
                          λ (id, st₅) k₅ lt.
                            bind_item-Runs paths export_kw scope name.0 (function id) st₅ k₅.good
                              (ScopeBelow-Kept paths scope (Kept-trans paths k₁₄ k₅) h) lt

    pub resolve_statements-Runs :
        (scope : Scope) (ts : Statements) (st : Resolver PathBuf P)
        → IsGood st
        → n ≤ length st.functions
        → uncached paths st.module_cache < bound
        → ScopeBelow (length st.functions) (length st.modules) scope
        → Runs paths ScopeBelow st (resolve_statements files get current scope ts st)
    resolve_statements-Runs scope no_statements st g le u h = Runs-ok paths (Kept-refl paths st g) h
    resolve_statements-Runs scope (statement_cons t ts) st g le u h =
        Runs-bind paths (resolve_statement-Runs scope t st g le u h) λ (scope', st') k h'.
          resolve_statements-Runs scope' ts st' k.good (omega (arith, k.functions_le))
            (omega (arith, k.uncached_le)) h'
