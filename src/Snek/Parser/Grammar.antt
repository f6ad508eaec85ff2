-- ===== src/Snek/Parser/Grammar.antt =====
-- The grammar of snek, as relations between the tokens before a phrase, the phrase, and the tokens
-- after it.
use serpentine.Prelude.{ℕ, Bool, true, false, Option, none, some, List, [], ◌∷◌, map}
use serpentine.Prelude.Text.{Text}
use serpentine.Snek.Span.{Span, Spanned, join}
use serpentine.Snek.Token.{Token}
use serpentine.Snek.Ast.{
  Ident, ItemPath, path_span, Expression, Node, Statement, expression_span, expressions_of,
  nodes_of, statements_of, number, string, label, node_expression, chain, node, return_statement,
  import_statement, label_statement, function_statement,
}
use serpentine.Snek.Parser.{Tokens, spanned_path, last_span, chain_span}

pub data IsSegments : Tokens → List Ident → Tokens → Type 0 where
  done : {ts : Tokens} → IsSegments ts [] ts
  segment :
      {s s' : Span} {i : Text} {is : List Ident} {ts us : Tokens}
      → IsSegments ts is us
      → IsSegments ((Token.path_sep, s) ∷ (Token.ident i, s') ∷ ts) ((i, s') ∷ is) us

pub data IsPath : Tokens → ItemPath → Tokens → Type 0 where
  path :
      {s : Span} {i : Text} {is : List Ident} {ts us : Tokens}
      → IsSegments ts is us
      → IsPath ((Token.ident i, s) ∷ ts) (record { base = (i, s); rest = is }) us

-- The separator stands before every item but the first.
pub data IsSeparator : Bool → Option Token → Tokens → Tokens → Type 0 where
  first : {o : Option Token} {ts : Tokens} → IsSeparator true o ts ts
  unseparated : {ts : Tokens} → IsSeparator false none ts ts
  separated : {t : Token} {s : Span} {ts : Tokens} → IsSeparator false (some t) ((t, s) ∷ ts) ts

-- Items up to and with the closing token.
pub data IsList {A : Type 0} (closing : Token) (sep : Option Token)
    (Item : Tokens → A → Tokens → Type 0) : Bool → Tokens → List A → Tokens → Type 0 where
  close : {b : Bool} {s : Span} {ts : Tokens} → IsList closing sep Item b ((closing, s) ∷ ts) [] ts
  item :
      {b : Bool} {a : A} {as' : List A} {ts us vs ws : Tokens}
      → IsSeparator b sep ts us
      → Item us a vs
      → IsList closing sep Item false vs as' ws
      → IsList closing sep Item b ts (a ∷ as') ws

-- Before the name of a node: nothing, `!path` or `!(path, ...)`. The span is where the node starts.
pub data IsPhantoms : Tokens → Span → List (Spanned ItemPath) → Tokens → Type 0 where
  unblocked : {t : Token} {s : Span} {ts : Tokens} → IsPhantoms ((t, s) ∷ ts) s [] ((t, s) ∷ ts)
  one :
      {s : Span} {p : ItemPath} {ts us : Tokens}
      → IsPath ts p us
      → IsPhantoms ((Token.wait, s) ∷ ts) s (spanned_path p ∷ []) us
  many :
      {s s' : Span} {ps : List ItemPath} {ts us : Tokens}
      → IsList Token.closing_paren (some Token.comma) IsPath true ts ps us
      → IsPhantoms ((Token.wait, s) ∷ (Token.open_paren, s') ∷ ts) s (map spanned_path ps) us

-- `IsCall` is what follows the name and the place where the node starts.
mutual
  pub data IsExpression : Tokens → Expression → Tokens → Type 0 where
    plain : {ts us : Tokens} {e : Expression} → IsAtom ts e us → IsExpression ts e us
    chained :
        {ts us vs : Tokens} {e : Expression} {ns : List (Spanned Node)}
        → IsAtom ts e us
        → IsChain us ns vs
        → IsExpression ts (chain e (nodes_of ns) (chain_span (expression_span e) ns)) vs

  pub data IsAtom : Tokens → Expression → Tokens → Type 0 where
    numeric : {n : ℕ} {s : Span} {ts : Tokens} → IsAtom ((Token.numeric n, s) ∷ ts) (number n s) ts
    text : {v : Text} {s : Span} {ts : Tokens} → IsAtom ((Token.string v, s) ∷ ts) (string v s) ts
    named : {p : ItemPath} {ts us : Tokens} → IsPath ts p us → IsAtom ts (label p (path_span p)) us
    called :
        {p : ItemPath} {n : Node} {s : Span} {ts us vs : Tokens}
        → IsPath ts p us
        → IsCall (path_span p) p [] us n s vs
        → IsAtom ts (node_expression n s) vs
    blocked :
        {n : Node} {s : Span} {ts us : Tokens}
        → IsNode ts n s us
        → IsAtom ts (node_expression n s) us

  pub data IsNode : Tokens → Node → Span → Tokens → Type 0 where
    after_phantoms :
        {start s : Span} {p : ItemPath} {ps : List (Spanned ItemPath)} {n : Node}
        {ts us vs ws : Tokens}
        → IsPhantoms ts start ps us
        → IsPath us p vs
        → IsCall start p ps vs n s ws
        → IsNode ts n s ws

  pub data IsCall
      : Span → ItemPath → List (Spanned ItemPath) → Tokens → Node → Span → Tokens → Type 0 where
    call :
        {start s : Span} {p : ItemPath} {ps : List (Spanned ItemPath)} {es : List Expression}
        {ts us : Tokens}
        → IsArguments true ts es us
        → IsCall start p ps
            ((Token.open_paren, s) ∷ ts)
            (node p (path_span p) (expressions_of es) ps)
            (join start (last_span start es))
            us

  pub data IsArguments : Bool → Tokens → List Expression → Tokens → Type 0 where
    end_arguments :
        {b : Bool} {s : Span} {ts : Tokens} → IsArguments b ((Token.closing_paren, s) ∷ ts) [] ts
    argument :
        {b : Bool} {e : Expression} {es : List Expression} {ts us vs ws : Tokens}
        → IsSeparator b (some Token.comma) ts us
        → IsExpression us e vs
        → IsArguments false vs es ws
        → IsArguments b ts (e ∷ es) ws

  pub data IsChain : Tokens → List (Spanned Node) → Tokens → Type 0 where
    end_chain : {ts : Tokens} → IsChain ts [] ts
    link :
        {s s' : Span} {n : Node} {ns : List (Spanned Node)} {ts us vs : Tokens}
        → IsNode ts n s' us
        → IsChain us ns vs
        → IsChain ((Token.pipe, s) ∷ ts) ((n, s') ∷ ns) vs

pub data IsParameter : Tokens → Ident × Option Expression → Tokens → Type 0 where
  required :
      {i : Text} {s : Span} {ts : Tokens} → IsParameter ((Token.ident i, s) ∷ ts) ((i, s), none) ts
  defaulted :
      {i : Text} {s s' : Span} {e : Expression} {ts us : Tokens}
      → IsExpression ts e us
      → IsParameter ((Token.ident i, s) ∷ (Token.equals, s') ∷ ts) ((i, s), some e) us

-- The parameters without a default come first.
pub data IsSplit
    : List (Ident × Option Expression) → List Ident → List (Ident × Expression) → Type 0 where
  only_defaults : IsSplit [] [] []
  default :
      {i : Ident} {e : Expression} {ps : List (Ident × Option Expression)}
      {ds : List (Ident × Expression)}
      → IsSplit ps [] ds
      → IsSplit ((i, some e) ∷ ps) [] ((i, e) ∷ ds)
  require :
      {i : Ident} {ps : List (Ident × Option Expression)} {is : List Ident}
      {ds : List (Ident × Expression)}
      → IsSplit ps is ds
      → IsSplit ((i, none) ∷ ps) (i ∷ is) ds

-- The optional `export` before a statement.
pub data IsExport : Tokens → Option Span → Tokens → Type 0 where
  unexported : {ts : Tokens} → IsExport ts none ts
  export : {s : Span} {ts : Tokens} → IsExport ((Token.export_kw, s) ∷ ts) (some s) ts

mutual
  pub data IsStatement : Tokens → Statement → Tokens → Type 0 where
    return :
        {s s' : Span} {e : Expression} {ts us : Tokens}
        → IsExpression ts e ((Token.semi_colon, s') ∷ us)
        → IsStatement ((Token.return_kw, s) ∷ ts) (return_statement s e) us
    import :
        {x : Option Span} {s s₁ s₂ s₃ s₄ : Span} {v i : Text} {ts us : Tokens}
        → IsExport ts x (
            (Token.import_kw, s)
            ∷ (Token.string v, s₁)
            ∷ (Token.as_kw, s₂)
            ∷ (Token.ident i, s₃)
            ∷ (Token.semi_colon, s₄)
            ∷ us)
        → IsStatement ts (import_statement x (v, s₁) (i, s₃)) us
    labelled :
        {x : Option Span} {s s₁ s₂ : Span} {i : Text} {e : Expression} {ts us vs : Tokens}
        → IsExport ts x ((Token.ident i, s) ∷ (Token.equals, s₁) ∷ us)
        → IsExpression us e ((Token.semi_colon, s₂) ∷ vs)
        → IsStatement ts (label_statement x e (i, s)) vs
    function :
        {x : Option Span} {s s₁ s₂ s₃ : Span} {i : Text} {ps : List (Ident × Option Expression)}
        {is : List Ident} {ds : List (Ident × Expression)} {ss : List Statement}
        {ts us vs ws : Tokens}
        → IsExport ts x ((Token.def_kw, s) ∷ (Token.ident i, s₁) ∷ (Token.open_paren, s₂) ∷ us)
        → IsList Token.closing_paren
            (some Token.comma)
            IsParameter
            true
            us
            ps
            ((Token.open_bracket, s₃) ∷ vs)
        → IsSplit ps is ds
        → IsBody vs ss ws
        → IsStatement ts (function_statement x (i, s₁) is ds (statements_of ss)) ws

  pub data IsBody : Tokens → List Statement → Tokens → Type 0 where
    end_body : {s : Span} {ts : Tokens} → IsBody ((Token.closing_bracket, s) ∷ ts) [] ts
    in_body :
        {t : Statement} {ss : List Statement} {ts us vs : Tokens}
        → IsStatement ts t us
        → IsBody us ss vs
        → IsBody ts (t ∷ ss) vs

-- A whole file, up to `Eof`.
pub data IsFile : Tokens → List Statement → Type 0 where
  end_file : {s : Span} → IsFile ((Token.eof, s) ∷ []) []
  in_file :
      {t : Statement} {ss : List Statement} {ts us : Tokens}
      → IsStatement ts t us
      → IsFile us ss
      → IsFile ts (t ∷ ss)
