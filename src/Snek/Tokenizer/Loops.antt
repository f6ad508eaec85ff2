-- ===== src/Snek/Tokenizer/Loops.antt =====
-- tokenizer.rs: the loops of comments and string literals, and what a call that reads a token
-- leaves behind.
use serpentine.Prelude.{
  ℕ, zero, suc, ◌+◌, ◌-◌, ◌≤◌, ◌<◌, ◌≡◌, ◌≢◌, refl, ap, sym, ◌∙◌, Option, none, some, [], ◌∷◌, ◌++◌,
  append_assoc, length, length-append, arith, Bool-cases, inl, inr, ◌==◌, nat_eq,
}
use serpentine.Prelude.Outcome.{Outcome, ok, Total, returned, rejected, Total-mono}
use serpentine.Prelude.Text.{Text, len_utf8, length_pos, bytes, bytes-append, bytes-cons, bytes-nil}
use serpentine.Snek.Span.{Spanned}
use serpentine.Snek.Token.{Token}
use serpentine.Snek.CompileError.{CompileError}
use serpentine.Snek.Tokenizer.{
  Tokenizer, skip_comment, string_loop, string_step, ParsingState, is_char, keyword,
}
use serpentine.Snek.Tokenizer.Position.{
  IsLexError, At, Took, head?, moved, peek-At, advance-At, advance-At_end, advance-Took, moved-At,
  Took-none, Took-cons,
}

-- The loop of a string literal counts the bytes that it takes.
abbrev ReadsString :
    ℕ → Text → Text → Text → ℕ → Outcome CompileError ((Text × ℕ) × Tokenizer) → Type 0
ReadsString file code before rest consumed r =
    Total {A = (Text × ℕ) × Tokenizer} IsLexError
      (λ x. (t : Took file code before rest x.1) × (x.0.1 ≡ consumed + bytes t.taken)) r

pub keyword-ne-eof : (text : Text) → keyword text ≢ Token.eof
unfolding keyword
keyword-ne-eof text = ground arith

module _ {file : ℕ} {code : Text} where
  pub skip_comment-Total :
      (fuel : ℕ) (rest before : Text) (st : Tokenizer)
      → length rest < fuel
      → At file code st before rest
      → Total IsLexError (λ (u, st'). Took file code before rest st') (skip_comment fuel st)
  unfolding skip_comment
  skip_comment-Total zero rest before st lt h = absurd (omega arith)
  skip_comment-Total (suc fuel) [] before st lt h = rw (advance-At_end h) (returned (Took-none h))
  skip_comment-Total (suc fuel) (c ∷ cs) before st lt h =
      let here = moved-At h in
      let rest = skip_comment-Total fuel cs (before ++ c ∷ []) (moved st c) (omega arith) here in
      let more = Total-mono (λ (u, st') t. Took-cons c t) rest in
      let (st', e, t, _) = advance-Took cs here in
      rw (advance-At h) (elim (Bool-cases (c == b'*')) [
        | inl star ↦
            rw (star, peek-At here)
              (elim (Bool-cases (is_char (head? cs) b'/')) [
                | inl slash ↦ rw (slash, e) (returned (Took-cons c t))
                | inr other ↦ rw other more
              ])
        | inr other ↦ rw other more
      ])

  unfoldable pub Took-trans :
      {before rest : Text} {st st' : Tokenizer} (t : Took file code before rest st)
      → Took file code (before ++ t.taken) t.left st'
      → Took file code before rest st'
  Took-trans {before} {rest} t u = record {
    taken = t.taken ++ u.taken;
    left = u.left;
    parts =
        t.parts ∙ (ap (λ xs. t.taken ++ xs) u.parts ∙ sym (append_assoc t.taken u.taken u.left));
    at = rw append_assoc at u.at;
  }

  pub Took-trans-bytes :
      {before rest : Text} {st st' : Tokenizer} (t : Took file code before rest st)
      (u : Took file code (before ++ t.taken) t.left st')
      → bytes (Took-trans t u).taken ≡ bytes t.taken + bytes u.taken
  unfolding Took-trans
  Took-trans-bytes t u = bytes-append t.taken u.taken

  pub string_loop-Total :
      (fuel : ℕ) (state : ParsingState) (content : Text) (consumed : ℕ) (rest before : Text)
      (st : Tokenizer)
      → length rest < fuel
      → At file code st before rest
      → ReadsString file code before rest consumed (string_loop fuel state content consumed st)
  unfolding string_loop Took-none Took-cons
  string_loop-Total zero state content consumed rest before st lt h = absurd (omega arith)
  string_loop-Total (suc fuel) state content consumed [] before st lt h =
      rw (advance-At_end h) (rejected tt)
  string_loop-Total (suc fuel) state content consumed (c ∷ cs) before st lt h = rw (advance-At h) (
      go (string_step state c) λ more state'.
        string_loop-Total fuel state' (content ++ more) (consumed + len_utf8 c) cs
          (before ++ c ∷ []) (moved st c) (omega arith) (moved-At h))
    where
      go :
          (o : Option (Text × ParsingState))
          → ((more : Text) (state' : ParsingState)
              → ReadsString file code
                  (before ++ c ∷ [])
                  cs
                  (consumed + len_utf8 c)
                  (string_loop fuel state' (content ++ more) (consumed + len_utf8 c) (moved st c)))
          → ReadsString file code before (c ∷ cs) consumed (elim o [
            | none ↦ ok ((content, consumed + len_utf8 c), moved st c)
            | some (more, state') ↦
                string_loop fuel state' (content ++ more) (consumed + len_utf8 c) (moved st c)
          ])
      go none k =
          returned (Took-cons c (Took-none (moved-At h)), omega (arith, bytes-cons c [], bytes-nil))
      go (some (more, state')) k =
          Total-mono (λ x (t, e). (Took-cons c t, omega (arith, e, bytes-cons c t.taken)))
            (k more state')

-- What one call leaves: with no token, nothing; with a token, a span within what it took that ends
-- where the tokenizer stands.
abbrev pub IsAtToken : ℕ → Text → Text → Option (Spanned Token) → Tokenizer → Text → Type 0
IsAtToken file before rest none st left = left ≡ []
IsAtToken file before rest (some (token, s)) st left =
    (token ≢ Token.eof)
    × (s.file_id ≡ file)
    × (bytes before ≤ s.start)
    × (s.start < s.end)
    × (s.end ≡ st.byte)
    × (length left < length rest)

pub record ReadsToken (file : ℕ) (code before rest : Text) (r : Option (Spanned Token))
    (st : Tokenizer) : Type 0 where
  pub took : Took file code before rest st
  pub at_token : IsAtToken file before rest r st took.left

-- A call that reads a token, or an error of the lexer.
abbrev pub Lexes :
    ℕ → Text → Text → Text → Outcome CompileError (Option (Spanned Token) × Tokenizer) → Type 0
Lexes file code before rest r =
    Total IsLexError (λ (t, st). ReadsToken file code before rest t st) r

module _ {file : ℕ} {code : Text} where
  pub Took-length :
      {before rest : Text} {st : Tokenizer} (t : Took file code before rest st)
      → length rest ≡ length t.taken + length t.left
  Took-length t = ap length t.parts ∙ length-append t.taken t.left

  -- What is read after a part is read after the whole.
  pub ReadsToken-after :
      {before rest : Text} {st st' : Tokenizer} (t : Took file code before rest st)
      (r : Option (Spanned Token))
      → ReadsToken file code (before ++ t.taken) t.left r st'
      → ReadsToken file code before rest r st'
  unfolding Took-trans
  ReadsToken-after t none h = record { took = Took-trans t h.took; at_token = h.at_token }
  ReadsToken-after {before} {rest} t (some (token, s)) h = record {
    took = Took-trans t h.took;
    at_token = (
      h.at_token.0,
      h.at_token.1,
      omega (arith, h.at_token.2, bytes-append before t.taken),
      h.at_token.3,
      h.at_token.4,
      omega (arith, h.at_token.5, Took-length t),
    );
  }

  -- A token over all that was taken.
  pub emitted :
      {before rest : Text} {st : Tokenizer} (t : Took file code before rest st) (token : Token)
      (n : ℕ)
      → n ≡ bytes t.taken
      → 0 < n
      → token ≢ Token.eof
      → ReadsToken file code before rest
          (some (token, record { file_id = st.file_id; start = st.byte - n; end = st.byte }))
          st
  emitted {before} t token n e pos ne = record {
    took = t;
    at_token = (
      ne,
      t.at.same_file,
      omega (arith, t.at.offset, bytes-append before t.taken),
      omega (arith, t.at.offset, bytes-append before t.taken),
      refl,
      omega (arith, Took-length t, length_pos t.taken (omega arith)),
    );
  }
