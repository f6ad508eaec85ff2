-- ===== src/Snek/Ast.antt =====
-- serpentine/src/snek/ast.rs: the syntax tree. A list of what is being declared is a type of the
-- same block.
use serpentine.Prelude.{ℕ, Option, List, [], ◌∷◌}
use serpentine.Prelude.Text.{Text}
use serpentine.Snek.Span.{Span, Spanned, join}

abbrev pub Ident : Type 0
Ident = Spanned Text

pub record ItemPath : Type 0 where
  pub base : Ident
  pub rest : List Ident

-- The last identifier after the one given.
abbrev pub last_of : Ident → List Ident → Ident
last_of i [] = i
last_of i (j ∷ is) = last_of j is

abbrev pub span_from : Ident → List Ident → Span
span_from base [] = base.1
span_from base (i ∷ is) = join base.1 (last_of i is).1

-- `ItemPath::span`
abbrev pub path_span : ItemPath → Span
path_span path = span_from path.base path.rest

-- A spanned value is followed by its span. A node is its name with the name's span, its arguments
-- and its phantom inputs.
mutual
  pub data Expression : Type 0 where
    number : ℕ → Span → Expression
    string : Text → Span → Expression
    label : ItemPath → Span → Expression
    node_expression : Node → Span → Expression
    chain : Expression → Nodes → Span → Expression

  pub data Node : Type 0 where
    node : ItemPath → Span → Expressions → List (Spanned ItemPath) → Node

  pub data Nodes : Type 0 where
    no_nodes : Nodes
    node_cons : Node → Span → Nodes → Nodes

  pub data Expressions : Type 0 where
    no_expressions : Expressions
    expression_cons : Expression → Expressions → Expressions

-- `Expression::span`
unfoldable pub expression_span : Expression → Span
expression_span (number _ s) = s
expression_span (string _ s) = s
expression_span (label _ s) = s
expression_span (node_expression _ s) = s
expression_span (chain _ _ s) = s

-- A statement that may be exported has the span of its `export`.
mutual
  pub data Statement : Type 0 where
    return_statement : Span → Expression → Statement
    import_statement : Option Span → Spanned Text → Ident → Statement
    label_statement : Option Span → Expression → Ident → Statement
    function_statement :
        Option Span → Ident → List Ident → List (Ident × Expression) → Statements → Statement

  pub data Statements : Type 0 where
    no_statements : Statements
    statement_cons : Statement → Statements → Statements

abbrev pub expressions_of : List Expression → Expressions
expressions_of [] = no_expressions
expressions_of (e ∷ es) = expression_cons e (expressions_of es)

abbrev pub nodes_of : List (Spanned Node) → Nodes
nodes_of [] = no_nodes
nodes_of ((n, s) ∷ ns) = node_cons n s (nodes_of ns)

abbrev pub statements_of : List Statement → Statements
statements_of [] = no_statements
statements_of (s ∷ ss) = statement_cons s (statements_of ss)
