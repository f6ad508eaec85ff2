-- ===== src/Snek/Tokenizer/Reads.antt =====
-- tokenizer.rs: one call of `read_next_token`.
use serpentine.Prelude.{
  ℕ, suc, ◌<◌, ◌≡◌, ◌≢◌, refl, ap, ◌∙◌, true, Option, none, some, [], ◌∷◌, ◌++◌, length, arith,
  Bool-cases, inl, inr, ◌==◌, nat_eq, nat_beq_iff,
}
use serpentine.Prelude.Outcome.{returned, Total-bind, Total-mono}
use serpentine.Prelude.Text.{
  Text, len_utf8, len_utf8_pos, len_utf8_ascii, length_pos, bytes, bytes-append, bytes-cons,
  bytes-nil,
}
use serpentine.Snek.Span.{Spanned}
use serpentine.Snek.Token.{Token}
use serpentine.Snek.Tokenizer.{
  Tokenizer, CharClasses, T, advance, read_colon, read_slash, read_character, read_multiple,
  read_one_or_more, read_or_end, ◌>>=◌, single_token, read_after_space, is_char, fuel_of,
}
use serpentine.Snek.Tokenizer.Position.{
  At, Took, head?, peek-At, advance-At, advance-At_end, advance-Took, moved-At, Took-none,
  Took-cons,
}
use serpentine.Snek.Tokenizer.Loops.{
  skip_comment-Total, Took-trans, Took-trans-bytes, Lexes, Took-length, ReadsToken-after,
}
use serpentine.Snek.Tokenizer.Words.{
  token_at-Lexes, fuel_enough, run_of_Total, read_word-Lexes, handle_string-Lexes,
}

single_token-ne-eof : (c : ℕ) (token : Token) → single_token c ≡ some token → token ≢ Token.eof
unfolding single_token
single_token-ne-eof c token h = ground arith

single_token_lt : (c : ℕ) (token : Token) → single_token c ≡ some token → c < 128
unfolding single_token
single_token_lt c token h = ground arith

is_char→eq : (o : Option ℕ) (c : ℕ) → is_char o c ≡ true → o ≡ some c
unfolding is_char
is_char→eq none c h = cc
is_char→eq (some d) c h = ground arith

module _ {file : ℕ} {code : Text} (classes : CharClasses) (again : T (Option (Spanned Token)))
    (bound : ℕ)
    (again-Lexes : (before rest : Text) (st : Tokenizer)
      → length rest < bound
      → At file code st before rest
      → Lexes file code before rest (again st)) where
  again_after :
      {before rest : Text} {st : Tokenizer} (t : Took file code before rest st)
      → length rest < suc bound
      → 0 < bytes t.taken
      → Lexes file code before rest (again st)
  again_after {before} {rest} {st} t lt pos =
      Total-mono (λ (r, st') h. ReadsToken-after t r h)
        (again-Lexes (before ++ t.taken) t.left st
          (omega (arith, Took-length t, length_pos t.taken pos)) t.at)

  read_colon-Lexes :
      {before rest : Text} {st : Tokenizer} (t : Took file code before rest st)
      → bytes t.taken ≡ len_utf8 b':'
      → Lexes file code before rest (read_colon classes again st)
  unfolding read_colon Took-trans
  read_colon-Lexes t first =
      let (st', e, u, one) = advance-Took t.left t.at in
      rw (peek-At t.at) (elim (Bool-cases (is_char (head? t.left) b':')) [
        | inl second ↦
            rw (second, e)
              (token_at-Lexes (Took-trans t u) Token.path_sep 2
                (omega (
                  arith,
                  bytes-append t.taken u.taken,
                  len_utf8_ascii b':' (omega arith),
                  one b':' (is_char→eq _ _ second),
                ))
                (omega arith) (cc))
        | inr other ↦ rw other (read_word-Lexes classes b':' t first)
      ])

  read_slash-Lexes :
      {before rest : Text} {st : Tokenizer} (t : Took file code before rest st)
      → length rest < suc bound
      → bytes t.taken ≡ len_utf8 b'/'
      → Lexes file code before rest (read_slash classes again st)
  unfolding read_slash
  read_slash-Lexes {before} {rest} t lt first =
      let (st', e, u, one) = advance-Took t.left t.at in
      let tu = Took-trans t u in
      rw (peek-At t.at) (elim (Bool-cases (is_char (head? t.left) b'/')) [
        | inl second ↦
            rw (second, e)
              (Total-bind (run_of_Total _ tu) λ (n, st₁) (w, p).
                again_after w lt (omega (arith, p, Took-trans-bytes t u, first, len_utf8_pos b'/')))
        | inr other ↦
            rw (other, peek-At t.at)
              (elim (Bool-cases (is_char (head? t.left) b'*')) [
                | inl star ↦
                    rw (star, e)
                      (Total-bind
                        (skip_comment-Total (fuel_of st') tu.left (before ++ tu.taken) st'
                          (fuel_enough tu) tu.at)
                        λ (_, st₁) w. again_after (Took-trans tu w) lt (
                          unfold Took-trans in
                          omega (
                            arith,
                            bytes-append (t.taken ++ u.taken) w.taken,
                            bytes-append t.taken u.taken,
                            first,
                            len_utf8_pos b'/',
                          )))
                | inr neither ↦ rw neither (read_word-Lexes classes b'/' t first)
              ])
      ])

  read_multiple-Lexes :
      (c : ℕ) {before rest : Text} {st : Tokenizer} (t : Took file code before rest st)
      → length rest < suc bound
      → bytes t.taken ≡ len_utf8 c
      → Lexes file code before rest (read_multiple classes again c st)
  unfolding read_multiple
  read_multiple-Lexes c t lt first = elim (Bool-cases (c == b':')) [
    | inl e ↦ rw e (read_colon-Lexes t (first ∙ ap len_utf8 ((nat_beq_iff c b':').0 e)))
    | inr e₁ ↦ rw e₁ (elim (Bool-cases (c == b'"')) [
      | inl e ↦ rw e (
          Total-bind
            (handle_string-Lexes classes t (
              first ∙ (ap len_utf8 ((nat_beq_iff c b'"').0 e) ∙ len_utf8_ascii b'"' (omega arith))))
            λ (s, st') h. returned h)
      | inr e₂ ↦ rw e₂ (elim (Bool-cases (c == b'/')) [
        | inl e ↦ rw e (read_slash-Lexes t lt (first ∙ ap len_utf8 ((nat_beq_iff c b'/').0 e)))
        | inr e₃ ↦ rw e₃ (read_word-Lexes classes c t first)
      ])
    ])
  ]

  read_character-Lexes :
      (c : ℕ) {before rest : Text} {st : Tokenizer} (t : Took file code before rest st)
      → length rest < suc bound
      → bytes t.taken ≡ len_utf8 c
      → Lexes file code before rest (read_character classes again c st)
  unfolding read_character
  read_character-Lexes c {before} {rest} {st} t lt first =
      go (single_token c) λ token e. (single_token_lt c token e, single_token-ne-eof c token e)
    where
      go :
          (o : Option Token)
          → ((token : Token) → o ≡ some token → (c < 128) × (token ≢ Token.eof))
          → Lexes file code before rest (read_one_or_more classes again o c st)
      go none h = read_multiple-Lexes c t lt first
      go (some token) h =
          token_at-Lexes t token 1 (omega (arith, len_utf8_ascii c (h token refl).0)) (omega arith)
            (h token refl).1

  pub read_after_space-Lexes :
      (before rest : Text) (st : Tokenizer)
      → length rest < suc bound
      → At file code st before rest
      → Lexes file code before rest (read_after_space classes again st)
  unfolding read_after_space Took-none
  read_after_space-Lexes before rest st lt h =
      Total-bind (run_of_Total classes.is_whitespace (Took-none h)) λ (n, st₁) (t, _).
        Total-mono (λ (r, st') x. ReadsToken-after t r x)
          (next t.left (omega (arith, Took-length t)) t.at)
    where
      next :
          {before' : Text} {st₁ : Tokenizer} (left : Text)
          → length left < suc bound
          → At file code st₁ before' left
          → Lexes file code before' left ((do c ← advance; read_or_end classes again c) st₁)
      next [] lt' at =
          rw (advance-At_end at) (returned (record { took = Took-none at; at_token = refl }))
      next (c ∷ cs) lt' at = rw (advance-At at) (
          read_character-Lexes c (Took-cons c (Took-none (moved-At at))) lt'
            (unfold Took-cons Took-none in omega (arith, bytes-cons c [], bytes-nil)))
