-- ===== src/Snek/Scope.antt =====
-- serpentine/src/snek/resolver.rs: what names stand for. A scope is its items and those of the
-- scopes around it, the innermost first.
use serpentine.Prelude.{ℕ, String, Option, none, some, List, [], ◌∷◌, list_eq, nat_eq}
use serpentine.Prelude.Map.{Map, lookup, insert}
use serpentine.Prelude.Outcome.{Outcome, ok, err}
use serpentine.Prelude.Text.{Text}
use serpentine.Snek.Span.{Span}
use serpentine.Snek.CompileError.{CompileError, wrong_item_kind, item_not_found}

-- A symbol, the id of a function, the id of a module.
pub data ScopeItem : Type 0 where
  label function module_item : ℕ → ScopeItem

unfoldable pub kind : ScopeItem → String
kind (module_item _) = "module"
kind (label _) = "label"
kind (function _) = "function"

unfoldable pub try_into_module : ScopeItem → Span → Outcome CompileError ℕ
unfolding kind
try_into_module (module_item m) s = ok m
try_into_module item s = err (wrong_item_kind "module" (kind item) s)

unfoldable pub try_into_label : ScopeItem → Span → Outcome CompileError ℕ
unfolding kind
try_into_label (label l) s = ok l
try_into_label item s = err (wrong_item_kind "label" (kind item) s)

unfoldable pub try_into_function : ScopeItem → Span → Outcome CompileError ℕ
unfolding kind
try_into_function (function f) s = ok f
try_into_function item s = err (wrong_item_kind "function" (kind item) s)

abbrev pub Items : Type 0
Items = Map Text ScopeItem

abbrev pub Scope : Type 0
Scope = List Items

abbrev pub root : Scope
root = [] ∷ []

abbrev pub child : Scope → Scope
child scope = [] ∷ scope

-- `Scope::insert`, into the innermost scope.
abbrev pub insert_item : Scope → Text → ScopeItem → Scope
insert_item [] name item = []
insert_item (items ∷ parents) name item = insert items name item ∷ parents

-- The item of this scope, or what the parent finds.
abbrev pub found :
    Option ScopeItem → Outcome CompileError ScopeItem → Outcome CompileError ScopeItem
found (some item) parent = ok item
found none parent = parent

unfoldable pub lookup_item : Scope → Text → Span → Outcome CompileError ScopeItem
lookup_item [] name s = err (item_not_found name s)
lookup_item (items ∷ parents) name s = found (lookup items name) (lookup_item parents name s)
