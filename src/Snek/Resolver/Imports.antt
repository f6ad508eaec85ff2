-- ===== src/Snek/Resolver/Imports.antt =====
-- resolver.rs: modules and their cache, against the invariant.
use serpentine.Prelude.{
  ℕ, zero, suc, ◌≤◌, ◌<◌, ◌≡◌, refl, sym, subst, Option, none, some, List, [], ◌∷◌, ◌++◌, length,
  get_elem?, length-append, All, All-mono, Eq, arith, list_eq, nat_eq,
}
use serpentine.Prelude.Map.{lookup, insert, All-lookup, lookup-insert_absent, lookup-insert_other}
use serpentine.Prelude.Outcome.{Outcome, ok, Total, returned, rejected, Total-bind}
use serpentine.Prelude.Text.{Text}
use serpentine.Snek.CompileError.{CompileError}
use serpentine.Snek.Span.{Spanned}
use serpentine.Snek.Token.{Token}
use serpentine.Snek.Parser.Primitives.{EndsEof}
use serpentine.Snek.Parser.ReadsStatements.{parse_file-IsFile}
use serpentine.Snek.Tokenizer.{CharClasses}
use serpentine.Snek.Tokenizer.Spans.{IsSpanned, tokenize-IsSpanned}
use serpentine.Snek.VirtualFile.{VirtualFile, push}
use serpentine.Snek.Scope.{Items, child}
use serpentine.Snek.Resolver.{Files, Resolver, StatementContext, in_module, in_function, M}
use serpentine.Snek.Resolver.Statements.{exports_of, resolve_statements}
use serpentine.Snek.Resolver.Modules.{
  read_or_fail, read, module_path, resolve_module, cached_module, get_module,
}
use serpentine.Snek.Resolver.Invariant.{
  ItemsBelow, ItemsBelow-mono, ScopeBelow, ContextBelow, ContextBelow-mono, EntryBelow,
  CacheBelow-mono, uncached, uncached-insert, uncached-insert_lt, IsGood, Kept, Kept-refl,
  Kept-trans, Runs, Runs-ok, Runs-err, Runs-bind, Runs-after, Runs-lift,
}
use serpentine.Snek.Resolver.Calls.{Anything, Kept-same}
use serpentine.Snek.Resolver.Bodies.{with_context-Runs, resolve_statements-Runs}

pub IsSpanned-EndsEof :
    (file size from : ℕ) (ts : List (Spanned Token)) → IsSpanned file size from ts → EndsEof ts
IsSpanned-EndsEof file size from [] h = h
IsSpanned-EndsEof file size from ((t, s) ∷ []) h = h.0
IsSpanned-EndsEof file size from ((t, s) ∷ u ∷ ts) h =
    (h.0, IsSpanned-EndsEof file size s.end (u ∷ ts) h.4)

All-push :
    {A : Type 0} (Q : A → Type 0) (xs : List A) {x : A} → All Q xs → Q x → All Q (xs ++ x ∷ [])
All-push Q [] h q = (q, tt)
All-push Q (y ∷ ys) h q = (h.0, All-push Q ys h.1 q)

exports_of-ItemsBelow :
    (k j : ℕ) (c : StatementContext) → ContextBelow k j c → ItemsBelow k j (exports_of c)
exports_of-ItemsBelow k j (in_module exports) h = h
exports_of-ItemsBelow k j (in_function value body) h = tt

Total-weaken :
    {A : Type 0} {F : CompileError → Type 0} {Q R : A → Type 0} {r : Outcome CompileError A}
    → ((a : A) → Q a → R a)
    → Total F Q r
    → Total (λ x. Unit {0}) R r
Total-weaken f (returned q) = returned (f _ q)
Total-weaken f (rejected q) = rejected tt

read_or_fail-Total :
    {PathBuf : Type 0} (files : Files PathBuf) (path : PathBuf) (o : Option Text)
    → Total
        (λ x. Unit {0})
        (λ code. read_or_fail files path o ≡ ok code)
        (read_or_fail files path o)
read_or_fail-Total files path none = rejected tt
read_or_fail-Total files path (some code) = returned refl

module _ {PathBuf P : Type 0} ⦃e : Eq PathBuf⦄ (paths : List PathBuf) (files : Files PathBuf)
    (classes : CharClasses) (prelude_items : Items) (n : ℕ)
    (prelude_below : ItemsBelow n 0 prelude_items) where
  resolve_module-Runs :
      (get : PathBuf → M PathBuf P ℕ) (bound : ℕ)
      → ((path : PathBuf) (st : Resolver PathBuf P)
          → IsGood st
          → n ≤ length st.functions
          → uncached paths st.module_cache < bound
          → Runs paths (λ k j m. m < j) st (get path st))
      → (path : PathBuf) (st : Resolver PathBuf P) → IsGood st
      → n ≤ length st.functions
      → ((code : Text) → read files path ≡ ok code → uncached paths st.module_cache < bound)
      → Runs paths ItemsBelow st (resolve_module files classes prelude_items get path st)
  unfolding resolve_module
  resolve_module-Runs get bound get-Runs path st g le u =
      Runs-bind paths
        (Runs-lift paths (λ k j code. read files path ≡ ok code) st g
          (read_or_fail-Total files path _))
        λ (code, st₁) k₁ there.
          let file' : VirtualFile PathBuf = (push st₁.file path code).0 in
          let k₂ =
            Kept-same paths st₁ (record st₁ { file = file' }) k₁.good refl refl refl refl refl
              k₁.good.context in
          let k₁₂ = Kept-trans paths k₁ k₂ in
          let le' : n ≤ length st₁.functions = omega (arith, le, k₁.functions_le) in
          let u' : uncached paths st₁.module_cache < bound =
            omega (arith, u code there, k₁.uncached_le) in
          Runs-after paths k₂ (
            Runs-bind paths
              (Runs-lift paths (λ k j ts. EndsEof ts) _ k₂.good
                (Total-weaken (λ ts h. IsSpanned-EndsEof _ _ 0 ts h)
                  (tokenize-IsSpanned classes _ code)))
              λ (ts, st₃) k₃ eof.
                Runs-bind paths
                  (Runs-lift paths Anything st₃ k₃.good
                    (Total-weaken (λ tree d. tt) (parse_file-IsFile ts eof)))
                  λ (tree, st₄) k₄ t.
                    Runs-bind paths
                      (with_context-Runs paths ScopeBelow (in_module [])
                        (resolve_statements files get path (child (prelude_items ∷ [])) tree) st₄
                        k₄.good tt
                        λ st' k.
                          let le'' : n ≤ length st'.functions =
                            omega (arith, le', k₃.functions_le, k₄.functions_le, k.functions_le) in
                          resolve_statements-Runs paths files get path n bound get-Runs
                            (child (prelude_items ∷ [])) tree st' k.good le''
                            (omega (arith, u', k₃.uncached_le, k₄.uncached_le, k.uncached_le))
                            (
                              tt,
                              (ItemsBelow-mono prelude_items le'' (omega arith) prelude_below, tt),
                            ))
                      λ ((scope, c), st₅) k₅ b₅.
                        Runs-ok paths (Kept-refl paths st₅ k₅.good)
                          (exports_of-ItemsBelow _ _ c b₅.1))

  -- The path of a module that was not there, marked as being resolved.
  marked-Kept :
      (st : Resolver PathBuf P)
      → IsGood st
      → (q : PathBuf) → lookup st.module_cache q ≡ none
      → Kept paths st (record st { module_cache = insert st.module_cache q none })
  marked-Kept st g q absent = record {
    good = record {
      stratified = g.stratified;
      modules = g.modules;
      context = g.context;
      first_noop = g.first_noop;
      cache = (tt, g.cache);
    };
    functions_le = omega arith;
    modules_le = omega arith;
    uncached_le = uncached-insert paths st.module_cache q none;
    cache_kept = λ r o p. lookup-insert_absent st.module_cache q r none absent p;
    literals_kept = λ key symbol p. p;
  }

  -- The module that is pushed and cached, where its path was not there before it was resolved.
  module-Kept :
      (st₀ st : Resolver PathBuf P) (q : PathBuf)
      → lookup st₀.module_cache q ≡ none
      → Kept paths st₀ st
      → (items : Items) → ItemsBelow (length st.functions) (length st.modules) items
      → Kept paths st₀ (record st {
        modules = st.modules ++ items ∷ [];
        module_cache = insert st.module_cache q (some (length st.modules));
      })
  module-Kept st₀ st q absent kept items below =
      let g = kept.good in
      let more : length st.modules < length (st.modules ++ items ∷ []) =
        rw (length-append st.modules (items ∷ [])) (omega arith) in
      let k = length st.functions in
      let j' = length (st.modules ++ items ∷ []) in
      let old : All (ItemsBelow k j') st.modules =
        All-mono (λ items b. ItemsBelow-mono items (omega arith) (omega (arith, more)) b) st.modules
          g.modules in
      record {
        good = record {
          stratified = g.stratified;
          modules =
              All-push (ItemsBelow k j') st.modules old
                (ItemsBelow-mono items (omega arith) (omega (arith, more)) below);
          context = ContextBelow-mono st.context (omega arith) (omega (arith, more)) g.context;
          first_noop = g.first_noop;
          cache = (more, CacheBelow-mono st.module_cache (omega (arith, more)) g.cache);
        };
        functions_le = kept.functions_le;
        modules_le = omega (arith, more, kept.modules_le);
        uncached_le = omega (
          arith,
          uncached-insert paths st.module_cache q (some (length st.modules)),
          kept.uncached_le,
        );
        cache_kept = λ r o p.
            lookup-insert_other st.module_cache q r (some (length st.modules))
              (λ same. cc (subst (λ r. lookup st₀.module_cache r ≡ some o) (sym same) p, absent))
              (kept.cache_kept r o p);
        literals_kept = kept.literals_kept;
      }

  -- A path that is read is one of the `paths`: the depth of the imports is bounded.
  module _
      (finite : (path : PathBuf) (code : Text)
        → read files (module_path files path) ≡ ok code
        → (i : ℕ) × (get_elem? paths i ≡ some (module_path files path))) where
    pub get_module-Runs :
        (fuel : ℕ) (path : PathBuf) (st : Resolver PathBuf P)
        → IsGood st
        → n ≤ length st.functions
        → uncached paths st.module_cache < fuel
        → Runs paths (λ k j m. m < j) st (get_module files classes prelude_items fuel path st)
    unfolding get_module
    get_module-Runs zero path st g le u = absurd (omega arith)
    get_module-Runs (suc fuel) path st g le u =
        go (λ path' st' g' le' u'. get_module-Runs fuel path' st' g' le' u')
          (lookup st.module_cache q) refl
      where
        q : PathBuf
        q = module_path files path

        marked : Resolver PathBuf P
        marked = record st { module_cache = insert st.module_cache q none }

        go :
            ((path' : PathBuf) (st' : Resolver PathBuf P)
              → IsGood st'
              → n ≤ length st'.functions
              → uncached paths st'.module_cache < fuel
              → Runs paths
                  (λ k j m. m < j)
                  st'
                  (get_module files classes prelude_items fuel path' st'))
            → (o : Option (Option ℕ)) → lookup st.module_cache q ≡ o
            → Runs paths
                (λ k j m. m < j)
                st
                (cached_module files classes prelude_items
                  (resolve_module files classes prelude_items
                    (get_module files classes prelude_items fuel))
                  q
                  o
                  st)
        go rec (some (some m)) there =
            Runs-ok paths (Kept-refl paths st g)
              (All-lookup (EntryBelow (length st.modules)) st.module_cache q g.cache there)
        go rec (some none) there = Runs-err paths
        go rec none there =
            let k₀ = marked-Kept st g q there in
            record {
              total =
                  Total-bind
                    (resolve_module-Runs (get_module files classes prelude_items fuel) fuel rec q
                      marked k₀.good le
                      λ code read_it.
                        let (i, at) = finite path code read_it in
                        omega (
                          arith,
                          u,
                          uncached-insert_lt paths st.module_cache q none i at there,
                        )).total
                    λ (items, st') (k, below). returned (
                      module-Kept st st' q there (Kept-trans paths k₀ k) items below,
                      rw (length-append st'.modules (items ∷ [])) (omega arith),
                    );
            }
