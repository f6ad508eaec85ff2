-- ===== src/Snek/Tokenizer.antt =====
-- serpentine/src/snek/tokenizer.rs: from the characters of a file to tokens with their spans. The
-- state is the code and the byte that the tokenizer is on.
pub mod Loops
pub mod Position
pub mod Reads
pub mod Spans
pub mod Strings
pub mod Words
use serpentine.Prelude.{
  ℕ, zero, suc, ◌+◌, ◌-◌, ◌*◌, ◌^◌, Bool, true, false, not, ◌&&◌, ◌||◌, Option, none, some, List,
  [], ◌∷◌, ◌++◌, length, ltb, leb, nat_eq, list_eq, ◌==◌, if◌then◌else◌,
}
use serpentine.Prelude.Outcome.{Outcome, ok, err, panic, out_of_fuel, bind}
use serpentine.Prelude.Text.{Text, codes, len_utf8, get_from, get_range}
use serpentine.Snek.Span.{Span, Spanned}
use serpentine.Snek.Token.{Token}
use serpentine.Snek.CompileError.{
  CompileError, internal_error, unknown_character, unterminated_string, integer_overflow,
}

-- The Unicode classes that `char` gives; their tables are not part of the program.
pub record CharClasses : Type 0 where
  pub is_whitespace : ℕ → Bool
  pub is_alphabetic : ℕ → Bool
  pub is_alphanumeric : ℕ → Bool

pub record Tokenizer : Type 0 where
  pub file_id : ℕ
  pub code : Text
  pub byte : ℕ

abbrev pub T {ℓ} : Type ℓ → Type ℓ
T A = Tokenizer → Outcome CompileError (A × Tokenizer)

module _ {ℓ} {A : Type ℓ} where
  abbrev pub pure : A → T A
  pure a st = ok (a, st)

  abbrev pub raise : CompileError → T A
  raise e st = err e

module _ {ℓ κ} {A : Type ℓ} {B : Type κ} where
  infixl 5 ◌>>=◌ ◌>>◌
  abbrev pub ◌>>=◌ : T A → (A → T B) → T B
  ◌>>=◌ m f st = bind (m st) λ (a, st'). f a st'

  abbrev pub ◌>>◌ : T A → T B → T B
  m >> k = m >>= λ _. k

-- The first character of the slice from the current byte, if the slice is there.
abbrev pub first_char : Option Text → T (Option ℕ)
first_char none st = err (internal_error "tokenizer byte offset didnt land on character boundary")
first_char (some []) st = ok (none, st)
first_char (some (c ∷ cs)) st = ok (some c, st)

unfoldable pub peek : T (Option ℕ)
peek st = first_char (get_from st.code st.byte) st

-- `self.byte` moves past the character.
abbrev pub skip : Option ℕ → T (Option ℕ)
skip none st = ok (none, st)
skip (some c) st = ok (some c, record st { byte = st.byte + len_utf8 c })

unfoldable pub advance : T (Option ℕ)
unfolding peek
advance = do c ← peek; skip c

-- The span that ends at the current byte.
unfoldable pub span : ℕ → T Span
span len st = ok (record { file_id = st.file_id; start = st.byte - len; end = st.byte }, st)

unfoldable pub is_char : Option ℕ → ℕ → Bool
is_char none c = false
is_char (some d) c = d == c

-- The number of bytes consumed.
unfoldable pub advance_while : ℕ → (ℕ → Bool) → ℕ → T ℕ
unfolding peek advance
advance_while zero predicate consumed st = out_of_fuel
advance_while (suc fuel) predicate consumed st = bind (peek st) λ (next, st₁). elim next [
  | none ↦ ok (consumed, st₁)
  | some c ↦
      if predicate c
      then bind (advance st₁) (λ (_, st₂). advance_while fuel predicate (consumed + len_utf8 c) st₂)
      else ok (consumed, st₁)
]

-- A loop goes round once for each character at most.
abbrev pub fuel_of : Tokenizer → ℕ
fuel_of st = suc (length st.code)

abbrev pub skip_while : (ℕ → Bool) → T ℕ
skip_while predicate st = advance_while (fuel_of st) predicate 0 st

-- Until after the closing `*/`, or the end.
unfoldable pub skip_comment : ℕ → T (Unit {0})
unfolding peek advance is_char
skip_comment zero st = out_of_fuel
skip_comment (suc fuel) st = bind (advance st) λ (next, st₁). elim next [
  | none ↦ ok (tt, st₁)
  | some c ↦
      if c == b'*'
      then bind (peek st₁) (λ (after, st₂).
        if is_char after b'/'
        then bind (advance st₂) (λ (_, st₃). ok (tt, st₃))
        else skip_comment fuel st₂)
      else skip_comment fuel st₁
]

pub data ParsingState : Type 0 where
  normal escape : ParsingState

-- What a character adds to the content, and the next state; none at the closing quote.
unfoldable pub string_step : ParsingState → ℕ → Option (Text × ParsingState)
string_step normal c =
    if c == b'"' then none else if c == b'\\' then some ([], escape) else some (c ∷ [], normal)
string_step escape c =
    if c == b'\\'
    then some (b'\\' ∷ [], normal)
    else if c == b'"'
    then some (b'"' ∷ [], normal)
    else some (b'\\' ∷ c ∷ [], normal)

-- The content and the bytes consumed.
unfoldable pub string_loop : ℕ → ParsingState → Text → ℕ → T (Text × ℕ)
unfolding advance string_step span
string_loop zero state content consumed st = out_of_fuel
string_loop (suc fuel) state content consumed st = bind (advance st) λ (next, st₁). elim next [
  | none ↦ bind (span consumed st₁) (λ (s, _). err (unterminated_string s))
  | some c ↦ elim (string_step state c) [
    | none ↦ ok ((content, consumed + len_utf8 c), st₁)
    | some (more, state') ↦ string_loop fuel state' (content ++ more) (consumed + len_utf8 c) st₁
  ]
]

-- The opening quote is consumed.
unfoldable pub handle_string : T (Spanned Token)
unfolding string_loop span
handle_string st = bind (string_loop (fuel_of st) normal [] 1 st) λ ((content, consumed), st₁).
    bind (span consumed st₁) λ (s, st₂). ok ((Token.string content, s), st₂)

-- The tokens of one character.
unfoldable pub single_token : ℕ → Option Token
single_token c =
    if c == b'('
    then some Token.open_paren
    else if c == b')'
    then some Token.closing_paren
    else if c == b'{'
    then some Token.open_bracket
    else if c == b'}'
    then some Token.closing_bracket
    else if c == b';'
    then some Token.semi_colon
    else if c == b'>'
    then some Token.pipe
    else if c == b','
    then some Token.comma
    else if c == b'='
    then some Token.equals
    else if c == b'!'
    then some Token.wait
    else none

unfoldable pub is_ascii_digit : ℕ → Bool
is_ascii_digit c = leb b'0' c && leb c b'9'

unfoldable pub keyword : Text → Token
keyword text =
    if text == codes "return"
    then Token.return_kw
    else if text == codes "def"
    then Token.def_kw
    else if text == codes "import"
    then Token.import_kw
    else if text == codes "export"
    then Token.export_kw
    else if text == codes "as"
    then Token.as_kw
    else Token.ident text

abbrev pub i128_max : ℕ
i128_max = 2 ^ 127 - 1

unfoldable pub digits_value : ℕ → Text → ℕ
digits_value n [] = n
digits_value n (c ∷ cs) = digits_value (n * 10 + (c - b'0')) cs

-- `str::parse::<i128>` of a text of digits: an error past the largest value.
unfoldable pub parse_i128 : Text → Option ℕ
unfolding digits_value
parse_i128 text = if ltb i128_max (digits_value 0 text) then none else some (digits_value 0 text)

abbrev pub slice : Option Text → T Text
slice none = raise (internal_error "Failed to index string")
slice (some text) = pure text

-- `Span::index_str`
unfoldable pub index_str : Span → T Text
index_str s st = slice (get_range st.code s.start s.end) st

-- A token that ends at the current byte.
unfoldable pub token_at : ℕ → Token → T (Option (Spanned Token))
unfolding span
token_at len token = do s ← span len; pure (some (token, s))

unfoldable pub number_token : Span → Option ℕ → T (Option (Spanned Token))
number_token s none = raise (integer_overflow s)
number_token s (some n) = pure (some (Token.numeric n, s))

-- The first digit is consumed.
unfoldable pub read_number : ℕ → T (Option (Spanned Token))
unfolding advance_while is_ascii_digit span index_str parse_i128 number_token
read_number c = do
  consumed ← skip_while is_ascii_digit
  s ← span (consumed + len_utf8 c)
  text ← index_str s
  number_token s (parse_i128 text)

module _ (classes : CharClasses) where
  unfoldable pub is_ident_char : ℕ → Bool
  is_ident_char c = classes.is_alphanumeric c || (c == b'-' || c == b'_')

  -- The first letter is consumed.
  unfoldable pub read_ident : ℕ → T (Option (Spanned Token))
  unfolding advance_while is_ident_char span index_str keyword
  read_ident c = do
    consumed ← skip_while is_ident_char
    s ← span (consumed + len_utf8 c)
    text ← index_str s
    pure (some (keyword text, s))

  unfoldable pub read_word : ℕ → T (Option (Spanned Token))
  unfolding read_number read_ident span
  read_word c =
      if is_ascii_digit c
      then read_number c
      else if classes.is_alphabetic c
      then read_ident c
      else do s ← span (len_utf8 c); raise (unknown_character s c)

  -- What reads the next token after a comment is passed in.
  module _ (again : T (Option (Spanned Token))) where
    unfoldable pub read_colon : T (Option (Spanned Token))
    unfolding peek advance is_char token_at read_word
    read_colon = do
      next ← peek
      if is_char next b':' then (do advance; token_at 2 Token.path_sep) else read_word b':'

    unfoldable pub read_slash : T (Option (Spanned Token))
    unfolding peek advance advance_while is_char skip_comment read_word
    read_slash = do
      next ← peek
      if is_char next b'/' then (do advance; skip_while (λ d. not (d == b'\n')); again) else (do
        next' ← peek
        if is_char next' b'*'
            then (do advance; (λ st. skip_comment (fuel_of st) st); again)
            else read_word b'/')

    unfoldable pub read_multiple : ℕ → T (Option (Spanned Token))
    unfolding read_colon handle_string read_slash read_word
    read_multiple c =
        if c == b':'
        then read_colon
        else if c == b'"'
        then (do s ← handle_string; pure (some s))
        else if c == b'/'
        then read_slash
        else read_word c

    abbrev pub read_one_or_more : Option Token → ℕ → T (Option (Spanned Token))
    read_one_or_more (some token) c = token_at 1 token
    read_one_or_more none c = read_multiple c

    unfoldable pub read_character : ℕ → T (Option (Spanned Token))
    unfolding token_at read_multiple
    read_character c = read_one_or_more (single_token c) c

    abbrev pub read_or_end : Option ℕ → T (Option (Spanned Token))
    read_or_end none = pure none
    read_or_end (some c) = read_character c

    unfoldable pub read_after_space : T (Option (Spanned Token))
    unfolding advance advance_while read_character
    read_after_space = do skip_while classes.is_whitespace; next ← advance; read_or_end next

  -- The fuel bounds the comments before the token.
  unfoldable pub read_next_token : ℕ → T (Option (Spanned Token))
  unfolding read_after_space
  read_next_token zero st = out_of_fuel
  read_next_token (suc fuel) st = read_after_space (read_next_token fuel) st

  -- The end of the file becomes a token too.
  abbrev pub go_on : T (List (Spanned Token)) → Option (Spanned Token) → T (List (Spanned Token))
  go_on rest none st = bind (span 1 st) λ (s, st'). ok ((Token.eof, s) ∷ [], st')
  go_on rest (some token) st = bind (rest st) λ (tokens, st'). ok (token ∷ tokens, st')

  unfoldable pub token_loop : ℕ → T (List (Spanned Token))
  unfolding read_next_token span
  token_loop zero st = out_of_fuel
  token_loop (suc fuel) st =
      bind (read_next_token (fuel_of st) st) λ (next, st₁). go_on (token_loop fuel) next st₁

  unfoldable pub tokenize : ℕ → Text → Outcome CompileError (List (Spanned Token))
  unfolding token_loop
  tokenize file_id code =
      let st : Tokenizer = record { file_id = file_id; code = code; byte = 0 } in
      bind (token_loop (fuel_of st) st) λ (tokens, _). ok tokens
