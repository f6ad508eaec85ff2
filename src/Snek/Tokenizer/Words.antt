-- ===== src/Snek/Tokenizer/Words.antt =====
-- tokenizer.rs: numbers, identifiers, keywords and string literals, read from their first character.
use serpentine.Prelude.{
  ℕ, ◌+◌, ◌-◌, ◌<◌, ◌≡◌, ◌≢◌, ◌∙◌, Bool, Option, none, some, [], ◌++◌, append_assoc, length,
  length-append, arith, Bool-cases, inl, inr, nat_eq,
}
use serpentine.Prelude.Outcome.{ok, Total, returned, rejected, Total-bind, Total-mono}
use serpentine.Prelude.Text.{
  Text, len_utf8, len_utf8_pos, bytes, bytes-append, get_range, get_range-append,
}
use serpentine.Snek.Token.{Token}
use serpentine.Snek.Tokenizer.{
  Tokenizer, CharClasses, advance_while, normal, handle_string, index_str, token_at, number_token,
  parse_i128, read_number, read_ident, read_word, fuel_of, is_ascii_digit, is_ident_char, keyword,
}
use serpentine.Snek.Tokenizer.Position.{IsLexError, Took, advance_while-Total}
use serpentine.Snek.Tokenizer.Loops.{
  keyword-ne-eof, Took-trans, string_loop-Total, ReadsToken, Lexes, emitted,
}

module _ {file : ℕ} {code : Text} where
  pub token_at-Lexes :
      {before rest : Text} {st : Tokenizer} (t : Took file code before rest st) (token : Token)
      (n : ℕ)
      → n ≡ bytes t.taken
      → 0 < n
      → token ≢ Token.eof
      → Lexes file code before rest (token_at n token st)
  unfolding token_at
  token_at-Lexes t token n e pos ne = returned (emitted t token n e pos ne)

  -- The slice of a token is what was taken.
  index_str-Took :
      {before rest : Text} {st : Tokenizer} (t : Took file code before rest st) (n : ℕ)
      → n ≡ bytes t.taken
      → index_str (record { file_id = st.file_id; start = st.byte - n; end = st.byte }) st
        ≡ ok (t.taken, st)
  unfolding index_str
  index_str-Took {before} {rest} {st} t n e = rw (
      sliced {start = st.byte - n} (omega (arith, t.at.offset, bytes-append before t.taken))
        (omega (arith, t.at.offset, bytes-append before t.taken)))
    where
      whole : code ≡ before ++ (t.taken ++ t.left)
      whole = t.at.split ∙ append_assoc before t.taken t.left

      sliced :
          {start : ℕ}
          → start ≡ bytes before
          → st.byte ≡ bytes before + bytes t.taken
          → get_range st.code start st.byte ≡ some t.taken
      sliced {start} p q =
          rw (t.at.same_code, whole) (get_range-append before t.taken t.left start st.byte p q)

  pub fuel_enough :
      {before rest : Text} {st : Tokenizer} (t : Took file code before rest st)
      → length t.left < fuel_of st
  fuel_enough {before} {st = st} t =
      rw (t.at.same_code, t.at.split) (omega (arith, length-append (before ++ t.taken) t.left))

  -- After the first character, a loop over a class of characters.
  pub run_of_Total :
      (predicate : ℕ → Bool) {before rest : Text} {st : Tokenizer}
      (t : Took file code before rest st)
      → Total IsLexError
          (λ (n, st'). (u : Took file code before rest st') × (n + bytes t.taken ≡ bytes u.taken))
          (advance_while (fuel_of st) predicate 0 st)
  unfolding Took-trans
  run_of_Total predicate {before} {rest} {st} t =
      Total-mono
        (λ (n, st') (u, e). (Took-trans t u, omega (arith, e, bytes-append t.taken u.taken)))
        (advance_while-Total predicate (fuel_of st) 0 t.left (before ++ t.taken) st (fuel_enough t)
          t.at)

  number_token-Lexes :
      {before rest : Text} {st : Tokenizer} (t : Took file code before rest st) (n : ℕ)
      (o : Option ℕ)
      → n ≡ bytes t.taken
      → 0 < n
      → Lexes file code before rest
          (number_token (record { file_id = st.file_id; start = st.byte - n; end = st.byte }) o st)
  unfolding number_token
  number_token-Lexes t n none e pos = rejected tt
  number_token-Lexes t n (some v) e pos = returned (emitted t (Token.numeric v) n e pos (cc))

  read_number-Lexes :
      (c : ℕ) {before rest : Text} {st : Tokenizer} (t : Took file code before rest st)
      → bytes t.taken ≡ len_utf8 c
      → Lexes file code before rest (read_number c st)
  unfolding read_number
  read_number-Lexes c t first = Total-bind (run_of_Total is_ascii_digit t) λ (n, st₁) (u, e).
      let p : n + len_utf8 c ≡ bytes u.taken = omega arith in
      rw (index_str-Took u (n + len_utf8 c) p) (
        number_token-Lexes u (n + len_utf8 c) (parse_i128 u.taken) p
          (omega (arith, len_utf8_pos c)))

  module _ (classes : CharClasses) where
    read_ident-Lexes :
        (c : ℕ) {before rest : Text} {st : Tokenizer} (t : Took file code before rest st)
        → bytes t.taken ≡ len_utf8 c
        → Lexes file code before rest (read_ident classes c st)
    unfolding read_ident
    read_ident-Lexes c t first =
        Total-bind (run_of_Total (is_ident_char classes) t) λ (n, st₁) (u, e).
          let p : n + len_utf8 c ≡ bytes u.taken = omega arith in
          rw (index_str-Took u (n + len_utf8 c) p) (
            returned (
              emitted u (keyword u.taken) (n + len_utf8 c) p (omega (arith, len_utf8_pos c))
                (keyword-ne-eof u.taken)))

    pub read_word-Lexes :
        (c : ℕ) {before rest : Text} {st : Tokenizer} (t : Took file code before rest st)
        → bytes t.taken ≡ len_utf8 c
        → Lexes file code before rest (read_word classes c st)
    unfolding read_word
    read_word-Lexes c t first = elim (Bool-cases (is_ascii_digit c)) [
      | inl digit ↦ rw digit (read_number-Lexes c t first)
      | inr other ↦ rw other (elim (Bool-cases (classes.is_alphabetic c)) [
        | inl letter ↦ rw letter (read_ident-Lexes c t first)
        | inr unknown ↦ rw unknown (rejected tt)
      ])
    ]

    pub handle_string-Lexes :
        {before rest : Text} {st : Tokenizer} (t : Took file code before rest st)
        → bytes t.taken ≡ 1
        → Total IsLexError
            (λ (s, st'). ReadsToken file code before rest (some s) st')
            (handle_string st)
    unfolding handle_string Took-trans
    handle_string-Lexes {before} {rest} {st} t first =
        Total-bind
          (string_loop-Total (fuel_of st) normal [] 1 t.left (before ++ t.taken) st (fuel_enough t)
            t.at)
          λ ((content, n), st₁) (u, e). returned (
            emitted (Took-trans t u) (Token.string content) n
              (omega (arith, e, bytes-append t.taken u.taken)) (omega (arith, e)) (cc))
