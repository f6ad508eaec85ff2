-- ===== src/Tests/Parse.antt =====
-- A file of tokens, parsed.
use serpentine.Prelude.{ℕ, suc, ◌≡◌, refl, List, [], ◌∷◌, none}
use serpentine.Prelude.Text.{codes}
use serpentine.Prelude.Outcome.{ok, Total}
use serpentine.Snek.Span.{Span}
use serpentine.Snek.Token.{Token}
use serpentine.Snek.Ast.{Statement, statements_of, label_statement, number}
use serpentine.Snek.Parser.{Tokens, parse_file}
use serpentine.Snek.Parser.Grammar.{IsFile}
use serpentine.Snek.Parser.Primitives.{EndsEof, IsParseError}
use serpentine.Snek.Parser.ReadsStatements.{parse_file-IsFile}

abbrev at : ℕ → Span
at n = record { file_id = 0; start = n; end = suc n }

-- `a = 1;`
abbrev tokens : Tokens
tokens =
    (Token.ident (codes "a"), at 0)
    ∷ (Token.equals, at 1)
    ∷ (Token.numeric 1, at 2)
    ∷ (Token.semi_colon, at 3)
    ∷ (Token.eof, at 4)
    ∷ []

parse_file_label :
    parse_file tokens
    ≡ ok (statements_of (label_statement none (number 1 (at 2)) (codes "a", at 0) ∷ []))
unfolding parse_file
parse_file_label = refl

tokens-EndsEof : EndsEof tokens
tokens-EndsEof = ((λ p. cc), ((λ p. cc), ((λ p. cc), ((λ p. cc), refl))))

parse_file-IsFile_example :
    Total IsParseError
      (λ tree. (ss : List Statement) × (tree ≡ statements_of ss) × IsFile tokens ss)
      (parse_file tokens)
parse_file-IsFile_example = parse_file-IsFile tokens tokens-EndsEof
