-- ===== src/Snek/Resolver/Modules.antt =====
-- serpentine/src/snek/resolver.rs: modules and their cache, the prelude's scope, and `resolve`.
use serpentine.Prelude.{
  ℕ, zero, suc, String, Option, none, some, List, [], ◌∷◌, ◌++◌, length, get_elem?, Eq, ◌==◌,
  nat_eq, list_eq, if◌then◌else◌,
}
use serpentine.Prelude.Map.{lookup, insert}
use serpentine.Prelude.Outcome.{Outcome, ok, err, out_of_fuel, bind, expect}
use serpentine.Prelude.Text.{Text, codes, bytes}
use serpentine.Engine.Nodes.{NodeImpl, prelude}
use serpentine.Snek.Span.{Span}
use serpentine.Snek.CompileError.{CompileError, file_reading, circular_import}
use serpentine.Snek.Ir.{builtin_function}
use serpentine.Snek.Parser.{parse_file}
use serpentine.Snek.Tokenizer.{CharClasses, tokenize}
use serpentine.Snek.VirtualFile.{VirtualFile, push}
use serpentine.Snek.Compiler.{ResolveResult}
use serpentine.Snek.Scope.{function, Items, child, lookup_item, try_into_label}
use serpentine.Snek.Resolver.{
  Files, key_eq, in_module, Resolver, M, pure, lift, ◌>>=◌, ok, err, bind,
}
use serpentine.Snek.Resolver.Statements.{exports_of, with_context, resolve_statements}

module _ {PathBuf P : Type 0} where
  -- `VirtualFile::push`
  abbrev pub push_file : PathBuf → Text → M PathBuf P ℕ
  push_file path code st =
      let (file, id) = push st.file path code in ok (id, record st { file = file })

module _ {PathBuf : Type 0} (files : Files PathBuf) where
  abbrev pub read_or_fail : PathBuf → Option Text → Outcome CompileError Text
  read_or_fail path none = err (file_reading (files.display path))
  read_or_fail path (some code) = ok code

  abbrev pub read : PathBuf → Outcome CompileError Text
  read path =
      read_or_fail path
        (if files.stdlib_root path then files.bundled path else files.read_to_string path)

  abbrev pub module_path : PathBuf → PathBuf
  module_path path =
      if files.stdlib_root path
      then path
      else elim (files.canonicalize path) [ none ↦ path | some c ↦ c ]

module _ {PathBuf P : Type 0} ⦃e : Eq PathBuf⦄ (files : Files PathBuf) (classes : CharClasses)
    (prelude_items : Items) where
  unfoldable pub resolve_module : (PathBuf → M PathBuf P ℕ) → PathBuf → M PathBuf P Items
  unfolding push tokenize parse_file resolve_statements
  resolve_module get path = do
    code ← lift (read files path)
    file_id ← push_file path code
    tokens ← lift (tokenize classes file_id code)
    tree ← lift (parse_file tokens)
    (_, context) ←
        with_context (in_module [])
          (resolve_statements files get path (child (prelude_items ∷ [])) tree)
    pure (exports_of context)

  -- On what the cache holds of the module: its id, or nothing while it is being resolved.
  abbrev pub cached_module :
      (PathBuf → M PathBuf P Items) → PathBuf → Option (Option ℕ) → M PathBuf P ℕ
  cached_module resolve path (some (some m)) st = ok (m, st)
  cached_module resolve path (some none) st = err (circular_import (files.display path))
  cached_module resolve path none st =
      bind (resolve path (record st { module_cache = insert st.module_cache path none }))
        λ (items, st'). ok (
          length st'.modules,
          record st' {
            modules = st'.modules ++ items ∷ [];
            module_cache = insert st'.module_cache path (some (length st'.modules));
          },
        )

  -- The fuel bounds the depth of the imports.
  unfoldable pub get_module : ℕ → PathBuf → M PathBuf P ℕ
  unfolding resolve_module
  get_module zero path st = out_of_fuel
  get_module (suc fuel) path st =
      cached_module (resolve_module (get_module fuel)) (module_path files path)
        (lookup st.module_cache (module_path files path)) st

module _ {PathBuf P : Type 0} where
  -- The loop of `create_prelude`.
  unfoldable pub prelude_loop :
      List (String × NodeImpl P) → Items → Option ℕ → M PathBuf P (Items × Option ℕ)
  prelude_loop [] items noop st = ok ((items, noop), st)
  prelude_loop ((name, implementation) ∷ rest) items noop st =
      prelude_loop rest (insert items (codes name) (function (length st.functions)))
        (if codes name == codes "Noop" then some (length st.nodes) else noop)
        (record st {
          nodes = st.nodes ++ implementation ∷ [];
          functions = st.functions ++ builtin_function (length st.nodes) ∷ [];
        })

  unfoldable pub create_prelude : M PathBuf P (Items × ℕ)
  unfolding prelude_loop prelude
  create_prelude = do
    (items, noop) ← prelude_loop prelude [] none
    id ← lift (expect noop)
    pure (items, id)

  abbrev pub initial : VirtualFile PathBuf → Resolver PathBuf P
  initial file = record {
    modules = [];
    module_cache = [];
    nodes = [];
    functions = [];
    file = file;
    next_symbol_id = 0;
    cached_literals = [];
    top_level_body = [];
    context = in_module [];
  }

module _ {PathBuf P : Type 0} ⦃e : Eq PathBuf⦄ (files : Files PathBuf) (classes : CharClasses) where
  -- The symbol that the entry point stands for in the module.
  unfoldable pub start_symbol : ℕ → Text → Span → M PathBuf P ℕ
  unfolding lookup_item try_into_label
  start_symbol m entry_point s st = bind (expect (get_elem? st.modules m)) λ items.
      bind (lookup_item (items ∷ []) entry_point s)
        λ item. bind (try_into_label item s) λ symbol. ok (symbol, st)

  -- What `resolve` does once it has the scope of the prelude.
  unfoldable pub resolve_with :
      ℕ → PathBuf → Text → (Items × ℕ) × Resolver PathBuf P → Outcome CompileError (ResolveResult P)
  unfolding get_module start_symbol push
  resolve_with fuel path entry_point ((items, noop), st₀) =
      bind (push_file (files.from_text (codes "<cli>")) entry_point st₀) λ (cli, st₁).
        bind (get_module files classes items fuel path st₁) λ (m, st₂).
          bind
            (start_symbol m entry_point
              (record { file_id = cli; start = 0; end = bytes entry_point }) st₂)
            λ (symbol, st₃). ok (record {
              ir = record {
                top_level = st₃.top_level_body;
                functions = st₃.functions;
                start_point = symbol;
              };
              nodes = st₃.nodes;
              noop = noop;
            })

  unfoldable pub resolve :
      ℕ → VirtualFile PathBuf → PathBuf → Text → Outcome CompileError (ResolveResult P)
  unfolding create_prelude resolve_with
  resolve fuel file path entry_point =
      bind (create_prelude (initial file)) (resolve_with fuel path entry_point)
