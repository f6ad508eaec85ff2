-- ===== src/Tests/Resolve.antt =====
-- A program of two files and one that imports itself, and the parts of the front end on them.
use serpentine.Prelude.{
  ℕ, zero, suc, ◌≡◌, subst, ◌≢◌, refl, ap, Bool, true, false, Option, none, some, List, [], ◌∷◌,
  length, get_elem?, ◌==◌, list_eq, nat_eq, list_beq_iff, if◌then◌else◌, arith,
}
use serpentine.Prelude.Map.{Map, lookup}
use serpentine.Prelude.Text.{Text, codes, bytes, len_utf8, get_from, get_range, get_to}
use serpentine.Prelude.Outcome.{Outcome, ok, err, out_of_fuel, Total, Ensures}
use serpentine.Snek.CompileError.{CompileError, circular_import, import_error}
use serpentine.Snek.Tokenizer.{single_token}
use serpentine.Snek.Span.{Span}
use serpentine.Snek.VirtualFile.{VirtualFile, push, locate}
use serpentine.Snek.VirtualFile.Offsets.{IsConsistent, push-locate}
use serpentine.Engine.DataModel.{type_}
use serpentine.Engine.Nodes.{return_type, noop}
use serpentine.Snek.Compiler.{
  get_symbols, push_stack, pop_stack, ResolveResult, CompileResult, context_of,
}
use serpentine.Snek.Compiler.Builtins.{HasNoop}
use serpentine.Snek.Compiler.Soundness.{IsProgram}
use serpentine.Snek.Compiler.Termination.{IsStratified, FunctionCallsBelow}
use serpentine.Snek.Ir.{builtin_function}
use serpentine.Snek.Ast.{
  Expression, Statements, import_statement, label_statement, no_statements, statement_cons,
}
use serpentine.Snek.Scope.{function, Items, Scope}
use serpentine.Snek.Resolver.Statements.{resolve_statements}
use serpentine.Snek.Resolver.Invariant.{IsGood, ScopeBelow}
use serpentine.Snek.Resolver.{Files, LiteralKey, Resolver, resolve_literal}
use serpentine.Snek.Resolver.Modules.{read, read_or_fail, module_path, resolve, initial, get_module}
use serpentine.Snek.Resolver.Resolves.{resolve-IsStratified}
use serpentine.Snek.Resolver.Repeats.{resolve_literal-resolve_statements}
use serpentine.Snek.CompileGraph.{compile_graph}
use serpentine.Snek.CompileGraph.Composed.{compile_graph-IsProgram}
use serpentine.Tests.Tokens.{ascii}

abbrev table : Map Text Text
table =
    (codes "main", codes "import \"lib\" as lib; export DEFAULT = Join(lib::x, lib::twice(\"y\"));")
    ∷ (codes "lib", codes "export x = \"y\"; export def twice(t) { return Join(t, t); }")
    ∷ (codes "loop", codes "import \"loop\" as l;")
    ∷ []

-- Paths are names, and there are no directories.
abbrev on_disk : Files Text
on_disk = record {
  stdlib_root = λ p. false;
  canonicalize = λ p. some p;
  parent = λ p. none;
  join = λ p q. q;
  from_text = λ t. t;
  display = λ p. p;
  bundled = λ p. none;
  read_to_string = λ p. lookup table p;
}

abbrev paths : List Text
paths = codes "main" ∷ codes "lib" ∷ codes "loop" ∷ []

abbrev names : Map Text Text → List Text
names [] = []
names ((name, code) ∷ m) = name ∷ names m

found_there :
    (m : Map Text Text) (p : Text) (code : Text)
    → read_or_fail on_disk p (lookup m p) ≡ ok code
    → (i : ℕ) × (get_elem? (names m) i ≡ some p)
found_there [] p code h = cc
found_there ((name, c) ∷ m) p code h =
    go (name == p) (list_beq_iff name p).0 h (λ h'. found_there m p code h')
  where
    go :
        (b : Bool)
        → (b ≡ true → name ≡ p)
        → read_or_fail on_disk p (if b then some c else lookup m p) ≡ ok code
        → (read_or_fail on_disk p (lookup m p) ≡ ok code
            → (i : ℕ) × (get_elem? (names m) i ≡ some p))
        → (i : ℕ) × (get_elem? (name ∷ names m) i ≡ some p)
    go true same h again = (0, ap some (same refl))
    go false same h again = let (i, there) = again h in (suc i, there)

on_disk_finite :
    (path : Text) (code : Text)
    → read on_disk (module_path on_disk path) ≡ ok code
    → (i : ℕ) × (get_elem? paths i ≡ some (module_path on_disk path))
on_disk_finite path code h = found_there table path code h

abbrev no_files : VirtualFile Text
no_files = record { files = []; total = 0 }

resolve-IsStratified_example :
    Total
      (λ (x : CompileError). Unit {0})
      (λ (r : ResolveResult Unit). IsStratified r.ir.functions × HasNoop (context_of r))
      (resolve on_disk ascii 4 no_files (codes "main") (codes "DEFAULT"))
resolve-IsStratified_example =
    resolve-IsStratified paths on_disk ascii on_disk_finite 4 no_files (codes "main")
      (codes "DEFAULT") (omega arith)

abbrev start_of : Outcome CompileError (CompileResult Unit) → Option (ℕ × ℕ)
start_of (ok c) = some (c.start_node, length c.graph)
start_of _ = none

-- One literal, the node in `twice` and the outer one.
compile_graph_main :
    start_of (compile_graph on_disk ascii 4 no_files (codes "main") (codes "DEFAULT")) ≡ some (2, 3)
unfolding compile_graph get_from single_token len_utf8 get_range get_to get_symbols return_type
    push_stack type_ pop_stack
compile_graph_main = refl

compile_graph-IsProgram_example :
    (compile_graph {P = Unit} on_disk ascii 4 no_files (codes "main") (codes "DEFAULT")
      ≢ out_of_fuel)
    × Ensures {A = CompileResult Unit}
        (λ c.
          (r : ResolveResult Unit) × (resolve on_disk ascii 4 no_files
              (codes "main")
              (codes "DEFAULT")
            ≡ ok r)
          × IsProgram r c)
        (compile_graph on_disk ascii 4 no_files (codes "main") (codes "DEFAULT"))
compile_graph-IsProgram_example =
    compile_graph-IsProgram paths on_disk ascii on_disk_finite 4 no_files (codes "main")
      (codes "DEFAULT") (omega arith)

-- A file that imports itself is reported where it does so.
compile_graph_loop :
    compile_graph {P = Unit} on_disk ascii 4 no_files (codes "loop") (codes "DEFAULT")
    ≡ err (
        import_error
          (codes "loop")
          (circular_import (codes "loop"))
          (record { file_id = 7; start = 7; end = 13 }))
unfolding compile_graph get_from single_token len_utf8 get_range get_to bytes
compile_graph_loop = refl

abbrev at : Span
at = record { file_id = 0; start = 0; end = 1 }

-- A prelude of one function, in the state before any file is read.
abbrev items : Items
items = (codes "Join", function 0) ∷ []

abbrev at_first : Resolver Text Unit
at_first = record (initial no_files) { nodes = noop ∷ []; functions = builtin_function 0 ∷ [] }

only_builtin : IsStratified (builtin_function 0 ∷ [])
only_builtin zero f h = let p : builtin_function 0 ≡ f = cc in subst (FunctionCallsBelow 0) p tt
only_builtin (suc k) f h = cc

at_first-IsGood : IsGood at_first
at_first-IsGood = record {
  stratified = only_builtin;
  modules = tt;
  context = tt;
  first_noop = refl;
  cache = tt;
}

-- `import "main" as m; y = "y";`, of which main imports lib.
abbrev more : Statements
more = statement_cons (import_statement none (codes "main", at) (codes "m", at)) (
    statement_cons (label_statement none (Expression.string (codes "y") at) (codes "y", at))
      no_statements)

abbrev get : Text → Resolver Text Unit → Outcome CompileError (ℕ × Resolver Text Unit)
get = get_module on_disk ascii items 4

abbrev state_of : {A : Type 0} → Outcome CompileError (A × Resolver Text Unit) → Resolver Text Unit
state_of (ok (a, st)) = st
state_of _ = at_first

abbrev scope_of : Outcome CompileError (Scope × Resolver Text Unit) → Scope
scope_of (ok (scope, st)) = scope
scope_of _ = []

abbrev with_five : Resolver Text Unit
with_five = state_of (resolve_literal (LiteralKey.int 5) at at_first)

abbrev after_five : Outcome CompileError (Scope × Resolver Text Unit)
after_five = resolve_statements on_disk get (codes "other") (items ∷ []) more with_five

five_first : resolve_literal (LiteralKey.int 5) at at_first ≡ ok (0, with_five)
unfolding resolve_literal
five_first = refl

five_later :
    resolve_statements on_disk get (codes "other") (items ∷ []) more with_five
    ≡ ok (scope_of after_five, state_of after_five)
unfolding resolve_statements get_module resolve_literal get_from single_token len_utf8 get_range
    get_to
five_later = refl

five_below : ScopeBelow (length with_five.functions) (length with_five.modules) (items ∷ [])
unfolding resolve_literal
five_below = ((omega arith, tt), tt)

resolve_literal-resolve_statements_example :
    resolve_literal (LiteralKey.int 5) at (state_of after_five) ≡ ok (0, state_of after_five)
resolve_literal-resolve_statements_example =
    resolve_literal-resolve_statements paths on_disk ascii items 1 (omega arith, tt) on_disk_finite
      4 (codes "other") (items ∷ []) (scope_of after_five) more (LiteralKey.int 5) at at at_first
      with_five (state_of after_five) 0 at_first-IsGood (omega arith) (omega arith) five_first
      five_below five_later

abbrev lib_read : Resolver Text Unit
lib_read = state_of (get (codes "lib") at_first)

abbrev after_lib : Outcome CompileError (Scope × Resolver Text Unit)
after_lib = resolve_statements on_disk get (codes "other") (items ∷ []) more lib_read

abbrev two_files : VirtualFile Text
two_files = record { files = (codes "a", codes "12") ∷ (codes "b", codes "345") ∷ []; total = 5 }

two_files-IsConsistent : IsConsistent two_files
unfolding len_utf8 bytes
two_files-IsConsistent = refl

push-locate_example :
    IsConsistent (push two_files (codes "c") (codes "67")).0
    × (locate 0 (push two_files (codes "c") (codes "67")).0.files 6
        ≡ some ((codes "c", codes "67"), 1))
unfolding bytes len_utf8 push
push-locate_example =
    push-locate two_files (codes "c") (codes "67") 6 two_files-IsConsistent (omega arith)
