-- ===== src/Tests/Tokens.antt =====
-- Short files, tokenized with the classes of the ASCII characters.
use serpentine.Prelude.{ℕ, ◌≡◌, refl, Bool, ◌&&◌, ◌||◌, leb, ◌==◌, nat_eq, [], ◌∷◌}
use serpentine.Prelude.Text.{Text, codes, bytes, len_utf8, get_from, get_range, get_to}
use serpentine.Prelude.Outcome.{ok, Total}
use serpentine.Snek.Span.{Span}
use serpentine.Snek.Token.{Token}
use serpentine.Snek.Tokenizer.{CharClasses, tokenize, handle_string, single_token}
use serpentine.Snek.Tokenizer.Position.{IsLexError}
use serpentine.Snek.Tokenizer.Spans.{IsSpanned, tokenize-IsSpanned}
use serpentine.Snek.Tokenizer.Strings.{escaped, handle_string-escaped}

abbrev is_letter : ℕ → Bool
is_letter c = (leb b'a' c && leb c b'z') || (leb b'A' c && leb c b'Z')

abbrev pub ascii : CharClasses
ascii = record {
  is_alphabetic = is_letter;
  is_alphanumeric = λ c. is_letter c || (leb b'0' c && leb c b'9');
  is_whitespace = λ c. c == b' ' || (c == b'\n');
}

abbrev file : Text
file = codes "def f(x) /* twice */ { return x > Join(\"a\\\"\"); }"

abbrev at : ℕ → ℕ → Span
at start end = record { file_id = 0; start = start; end = end }

tokenize_default :
    tokenize ascii 0 (codes "x/* a */=\"\\\"\"")
    ≡ ok (
        (Token.ident (codes "x"), at 0 1)
        ∷ (Token.equals, at 8 9)
        ∷ (Token.string (codes "\""), at 9 13)
        ∷ (Token.eof, at 12 13)
        ∷ [])
unfolding tokenize get_from single_token len_utf8 get_range get_to
tokenize_default = refl

tokenize-IsSpanned_example : Total IsLexError (IsSpanned 0 (bytes file) 0) (tokenize ascii 0 file)
tokenize-IsSpanned_example = tokenize-IsSpanned ascii 0 file

handle_string-escaped_example :
    handle_string (record { file_id = 0; code = codes "\"a\\\"\";"; byte = 1 })
    ≡ ok (
      (Token.string (codes "a\""), at 0 5),
      record { file_id = 0; code = codes "\"a\\\"\";"; byte = 5 },
    )
unfolding escaped bytes len_utf8
handle_string-escaped_example = handle_string-escaped 0 (codes "\"") (codes "a\"") (codes ";")
