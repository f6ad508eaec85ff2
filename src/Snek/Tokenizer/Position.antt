-- ===== src/Snek/Tokenizer/Position.antt =====
-- tokenizer.rs: the byte offset, `peek`, `advance` and `advance_while` at a place in the code.
use serpentine.Prelude.{
  ℕ, zero, suc, ◌+◌, ◌<◌, ◌≡◌, refl, ap, sym, ◌∙◌, Bool, Option, none, some, [], ◌∷◌, ◌++◌,
  append_assoc, append-nil, length, arith, Bool-cases, inl, inr, nat_eq,
}
use serpentine.Prelude.Outcome.{ok, Total, returned, Total-mono}
use serpentine.Prelude.Text.{
  Text, len_utf8, bytes, bytes-append, bytes-cons, bytes-nil, get_from, get_from-append,
}
use serpentine.Snek.CompileError.{
  CompileError, unknown_character, unterminated_string, integer_overflow,
}
use serpentine.Snek.Tokenizer.{Tokenizer, peek, advance, advance_while}

-- What a tokenizer may report: no internal error.
abbrev pub IsLexError : CompileError → Type 0
IsLexError (unknown_character s c) = Unit
IsLexError (unterminated_string s) = Unit
IsLexError (integer_overflow s) = Unit
IsLexError _ = ⊥

abbrev pub head? : Text → Option ℕ
head? [] = none
head? (c ∷ cs) = some c

-- The tokenizer stands between `before` and `rest`.
pub record At (file : ℕ) (code : Text) (st : Tokenizer) (before rest : Text) : Type 0 where
  pub same_file : st.file_id ≡ file
  pub same_code : st.code ≡ code
  pub split : code ≡ before ++ rest
  pub offset : st.byte ≡ bytes before

-- It has gone on by `taken`.
pub record Took (file : ℕ) (code before rest : Text) (st : Tokenizer) : Type 0 where
  pub taken : Text
  pub left : Text
  pub parts : rest ≡ taken ++ left
  pub at : At file code st (before ++ taken) left

abbrev pub moved : Tokenizer → ℕ → Tokenizer
moved st c = record st { byte = st.byte + len_utf8 c }

module _ {file : ℕ} {code : Text} where
  pub get_from-At :
      {st : Tokenizer} {before rest : Text}
      → At file code st before rest
      → get_from st.code st.byte ≡ some rest
  get_from-At h = rw (h.same_code, h.split, h.offset) (get_from-append _ _)

  pub peek-At :
      {st : Tokenizer} {before rest : Text}
      → At file code st before rest
      → peek st ≡ ok (head? rest, st)
  unfolding peek
  peek-At {rest = []} h = rw (get_from-At h)
  peek-At {rest = c ∷ cs} h = rw (get_from-At h)

  pub advance-At_end :
      {st : Tokenizer} {before : Text} → At file code st before [] → advance st ≡ ok (none, st)
  unfolding advance
  advance-At_end h = rw (peek-At h)

  pub advance-At :
      {st : Tokenizer} {before : Text} {c : ℕ} {cs : Text}
      → At file code st before (c ∷ cs)
      → advance st ≡ ok (some c, moved st c)
  unfolding advance
  advance-At h = rw (peek-At h)

  pub moved-At :
      {st : Tokenizer} {before : Text} {c : ℕ} {cs : Text}
      → At file code st before (c ∷ cs)
      → At file code (moved st c) (before ++ c ∷ []) cs
  moved-At {before = before} {c} {cs} h = record {
    same_file = h.same_file;
    same_code = h.same_code;
    split = h.split ∙ sym (append_assoc before (c ∷ []) cs);
    offset = omega (arith, h.offset, bytes-append before (c ∷ []), bytes-cons c [], bytes-nil);
  }

  unfoldable pub Took-none :
      {st : Tokenizer} {before rest : Text}
      → At file code st before rest
      → Took file code before rest st
  Took-none {before = before} {rest} h = record {
    taken = [];
    left = rest;
    parts = refl;
    at = rw append-nil h;
  }

  unfoldable pub Took-cons :
      {st : Tokenizer} {before cs : Text} (c : ℕ)
      → Took file code (before ++ c ∷ []) cs st
      → Took file code before (c ∷ cs) st
  Took-cons {before = before} c t = record {
    taken = c ∷ t.taken;
    left = t.left;
    parts = ap (λ xs. c ∷ xs) t.parts;
    at = rw append_assoc at t.at;
  }

module _ {file : ℕ} {code : Text} where
  -- The loop stops, and has counted the bytes that it took.
  pub advance_while-Total :
      (predicate : ℕ → Bool) (fuel consumed : ℕ) (rest before : Text) (st : Tokenizer)
      → length rest < fuel
      → At file code st before rest
      → Total IsLexError
          (λ (n, st'). (t : Took file code before rest st') × (n ≡ consumed + bytes t.taken))
          (advance_while fuel predicate consumed st)
  unfolding advance_while Took-none Took-cons
  advance_while-Total predicate zero consumed rest before st lt h = absurd (omega arith)
  advance_while-Total predicate (suc fuel) consumed [] before st lt h =
      rw (peek-At h) (returned (Took-none h, omega (arith, bytes-nil)))
  advance_while-Total predicate (suc fuel) consumed (c ∷ cs) before st lt h =
      rw (peek-At h) (elim (Bool-cases (predicate c)) [
        | inl goes_on ↦
            rw (goes_on, advance-At h)
              (Total-mono
                (λ (n, st') (t, e). (Took-cons c t, omega (arith, e, bytes-cons c t.taken)))
                (advance_while-Total predicate fuel (consumed + len_utf8 c) cs (before ++ c ∷ [])
                  (moved st c) (omega arith) (moved-At h)))
        | inr stops ↦ rw stops (returned (Took-none h, omega (arith, bytes-nil)))
      ])

  -- One step forward, if there is a character.
  pub advance-Took :
      (rest : Text) {st : Tokenizer} {before : Text}
      → At file code st before rest
      → (st' : Tokenizer) × (advance st ≡ ok (head? rest, st'))
        × (t : Took file code before rest st') × ((c : ℕ)
            → head? rest ≡ some c
            → bytes t.taken ≡ len_utf8 c)
  unfolding Took-cons Took-none
  advance-Took [] {st} h = (st, advance-At_end h, Took-none h, λ c e. cc)
  advance-Took (d ∷ cs) {st} h = (
    moved st d,
    advance-At h,
    Took-cons d (Took-none (moved-At h)),
    λ c e. let p : d ≡ c = cc in rw p (omega (arith, bytes-cons c [], bytes-nil)),
  )
