-- ===== src/Snek/Token.antt =====
-- serpentine/src/snek/tokenizer.rs: the tokens, and how errors describe them.
use serpentine.Prelude.{
  ℕ, String, [], ◌∷◌, Bool, true, ◌&&◌, ◌≡◌, refl, ◌↔◌, arith, Eq, ◌==◌, nat_eq, list_eq,
  nat_beq_iff, list_beq_iff, if◌then◌else◌,
}
use serpentine.Prelude.Text.{Text}

-- A numeric literal has no sign, so its value is a number (below 2 ^ 127).
pub data Token : Type 0 where
  ident : Text → Token
  string : Text → Token
  numeric : ℕ → Token
  open_paren closing_paren open_bracket closing_bracket semi_colon pipe comma equals wait path_sep :
      Token
  return_kw def_kw import_kw export_kw as_kw : Token
  eof : Token

-- What `Token::describe` formats: the debug form of a string or of a number, or a fixed text.
pub data Description : Type 0 where
  identifier quoted : Text → Description
  number : ℕ → Description
  fixed : String → Description

unfoldable pub describe : Token → Description
describe (ident value) = identifier value
describe (string value) = quoted value
describe (numeric value) = number value
describe open_paren = fixed "("
describe closing_paren = fixed ")"
describe open_bracket = fixed "{"
describe closing_bracket = fixed "}"
describe semi_colon = fixed ";"
describe pipe = fixed ">"
describe comma = fixed ","
describe equals = fixed "="
describe wait = fixed "!"
describe path_sep = fixed "::"
describe return_kw = fixed "return"
describe def_kw = fixed "def"
describe import_kw = fixed "import"
describe export_kw = fixed "export"
describe as_kw = fixed "as"
describe eof = fixed "end of file"

-- `Token` derives `PartialEq`: two tokens are equal if their constructors and their payloads are.
abbrev pub token_index : Token → ℕ
token_index (ident value) = 0
token_index (string value) = 1
token_index (numeric value) = 2
token_index open_paren = 3
token_index closing_paren = 4
token_index open_bracket = 5
token_index closing_bracket = 6
token_index semi_colon = 7
token_index pipe = 8
token_index comma = 9
token_index equals = 10
token_index wait = 11
token_index path_sep = 12
token_index return_kw = 13
token_index def_kw = 14
token_index import_kw = 15
token_index export_kw = 16
token_index as_kw = 17
token_index eof = 18

abbrev pub payload : Token → Text
payload (ident value) = value
payload (string value) = value
payload (numeric value) = value ∷ []
payload _ = []

-- The token with an index and a payload.
number_of : Text → Token
number_of [] = eof
number_of (n ∷ ns) = numeric n

from_parts : ℕ → Text → Token
from_parts n value =
    if n == 0
    then ident value
    else if n == 1
    then string value
    else if n == 2
    then number_of value
    else if n == 3
    then open_paren
    else if n == 4
    then closing_paren
    else if n == 5
    then open_bracket
    else if n == 6
    then closing_bracket
    else if n == 7
    then semi_colon
    else if n == 8
    then pipe
    else if n == 9
    then comma
    else if n == 10
    then equals
    else if n == 11
    then wait
    else if n == 12
    then path_sep
    else if n == 13
    then return_kw
    else if n == 14
    then def_kw
    else if n == 15
    then import_kw
    else if n == 16
    then export_kw
    else if n == 17
    then as_kw
    else eof

from_parts-parts : (t : Token) → from_parts (token_index t) (payload t) ≡ t
unfolding from_parts number_of
from_parts-parts (ident value) = refl
from_parts-parts (string value) = refl
from_parts-parts (numeric value) = refl
from_parts-parts open_paren = refl
from_parts-parts closing_paren = refl
from_parts-parts open_bracket = refl
from_parts-parts closing_bracket = refl
from_parts-parts semi_colon = refl
from_parts-parts pipe = refl
from_parts-parts comma = refl
from_parts-parts equals = refl
from_parts-parts wait = refl
from_parts-parts path_sep = refl
from_parts-parts return_kw = refl
from_parts-parts def_kw = refl
from_parts-parts import_kw = refl
from_parts-parts export_kw = refl
from_parts-parts as_kw = refl
from_parts-parts eof = refl

abbrev pub token_beq : Token → Token → Bool
token_beq s t = (token_index s == token_index t) && (payload s == payload t)

pub token_beq_iff : (s t : Token) → (token_beq s t ≡ true) ↔ (s ≡ t)
token_beq_iff s t = (forth, λ p. rw p (same t))
  where
    same : (t : Token) → token_beq t t ≡ true
    same t =
        rw
          (
            (nat_beq_iff (token_index t) (token_index t)).1 refl,
            (list_beq_iff (payload t) (payload t)).1 refl,
          )
          refl

    forth : token_beq s t ≡ true → s ≡ t
    forth h =
        let p : token_index s ≡ token_index t =
          ground (arith, nat_beq_iff (token_index s) (token_index t)) in
        let q : payload s ≡ payload t = ground (arith, list_beq_iff (payload s) (payload t)) in
        cc (p, q, from_parts-parts s, from_parts-parts t)

instance abbrev pub token_eq : Eq Token
token_eq = record { is_eq = token_beq; is_eq_iff = token_beq_iff }
