-- ===== src/Snek/Tokenizer/Strings.antt =====
-- tokenizer.rs: `handle_string` on literals with escapes.
use serpentine.Prelude.{
  ◌||◌, ℕ, zero, suc, ◌+◌, ◌-◌, ◌<◌, ◌≡◌, refl, ap, sym, ◌∙◌, subst, true, false, some, [], ◌∷◌,
  ◌++◌, append_assoc, append-nil, length, length-append, arith, Bool-cases, inl, inr, ◌==◌, nat_eq,
  if◌then◌else◌,
}
use serpentine.Prelude.Outcome.{Outcome, ok, bind}
use serpentine.Prelude.Text.{Text, len_utf8, len_utf8_ascii, bytes, bytes-cons, bytes-nil}
use serpentine.Snek.Span.{Spanned}
use serpentine.Snek.Token.{Token}
use serpentine.Snek.CompileError.{CompileError}
use serpentine.Snek.Tokenizer.{
  Tokenizer, ParsingState, string_loop, string_step, normal, escape, handle_string, span, fuel_of,
}
use serpentine.Snek.Tokenizer.Position.{At, moved, advance-At, moved-At}

-- What is written between the quotes for a text: a backslash before each quote and backslash.
unfoldable pub escaped : Text → Text
escaped [] = []
escaped (c ∷ cs) = if (c == b'"') || (c == b'\\') then b'\\' ∷ c ∷ escaped cs else c ∷ escaped cs

-- What the loop returns: the content, the bytes consumed, the byte it stands on.
abbrev Returned : Tokenizer → Text → ℕ → ℕ → Outcome CompileError ((Text × ℕ) × Tokenizer)
Returned st content consumed byte = ok ((content, consumed), record st { byte = byte })

Returned_eq :
    (st : Tokenizer) {a a' : Text} {n n' b b' : ℕ}
    → a ≡ a'
    → n ≡ n'
    → b ≡ b'
    → Returned st a n b ≡ Returned st a' n' b'
Returned_eq st {a} {a'} {n} {n'} {b} {b'} p q r = rw (p, q, r) refl

string_step-escaped :
    (c : ℕ) → (c == b'"') || (c == b'\\') ≡ true → string_step escape c ≡ some (c ∷ [], normal)
unfolding string_step
string_step-escaped c h = ground arith

string_step-backslash : string_step normal b'\\' ≡ some ([], escape)
unfolding string_step
string_step-backslash = refl

string_step-plain :
    (c : ℕ) → (c == b'"') || (c == b'\\') ≡ false → string_step normal c ≡ some (c ∷ [], normal)
unfolding string_step
string_step-plain c h = ground arith

escaped-plain :
    (c : ℕ) (cs : Text) → (c == b'"') || (c == b'\\') ≡ false → escaped (c ∷ cs) ≡ c ∷ escaped cs
unfolding escaped
escaped-plain c cs h = rw h refl

escaped-quoted :
    (c : ℕ) (cs : Text)
    → (c == b'"') || (c == b'\\') ≡ true
    → escaped (c ∷ cs) ≡ b'\\' ∷ c ∷ escaped cs
unfolding escaped
escaped-quoted c cs h = rw h refl

module _ {file : ℕ} {code : Text} where
  -- One step of the loop.
  string_loop-step :
      (fuel : ℕ) (state : ParsingState) {state' : ParsingState} {c : ℕ} {more : Text}
      (content : Text) (consumed : ℕ) {st : Tokenizer} {before rest : Text}
      → At file code st before (c ∷ rest)
      → string_step state c ≡ some (more, state')
      → string_loop (suc fuel) state content consumed st
        ≡ string_loop fuel state' (content ++ more) (consumed + len_utf8 c) (moved st c)
  unfolding string_loop
  string_loop-step fuel state content consumed h e = rw (advance-At h) (rw (e, bind) refl)

  string_loop-closed :
      (fuel : ℕ) (rest acc before : Text) (consumed : ℕ) (st : Tokenizer)
      → At file code st before (b'"' ∷ rest)
      → string_loop (suc fuel) normal acc consumed st ≡ Returned st acc (consumed + 1) (st.byte + 1)
  unfolding string_loop string_step
  string_loop-closed fuel rest acc before consumed st h = rw (advance-At h) (
      Returned_eq st refl (omega (arith, len_utf8_ascii b'"' (omega arith)))
        (omega (arith, len_utf8_ascii b'"' (omega arith))))

module _ (file : ℕ) (code : Text) where
  -- The loop reads the literal `literal` as `content`.
  abbrev Reads : ℕ → Text → Text → Type 0
  Reads fuel literal content =
      (rest acc before : Text) (consumed : ℕ) (st : Tokenizer)
      → At file code st before (literal ++ b'"' ∷ rest)
      → string_loop fuel normal acc consumed st
        ≡ Returned st (acc ++ content) (consumed + bytes literal + 1) (st.byte + bytes literal + 1)

  Reads-plain :
      (fuel : ℕ) (c : ℕ) (literal content : Text)
      → (c == b'"') || (c == b'\\') ≡ false
      → Reads fuel literal content
      → Reads (suc fuel) (c ∷ literal) (c ∷ content)
  Reads-plain fuel c literal content plain more rest acc before consumed st h =
      string_loop-step fuel normal acc consumed h (string_step-plain c plain)
      ∙ (more rest (acc ++ c ∷ []) (before ++ c ∷ []) (consumed + len_utf8 c) (moved st c)
            (moved-At h)
          ∙ Returned_eq st (append_assoc acc (c ∷ []) content) (omega (arith, bytes-cons c literal))
              (omega (arith, bytes-cons c literal)))

  Reads-quoted :
      (fuel : ℕ) (c : ℕ) (literal content : Text)
      → (c == b'"') || (c == b'\\') ≡ true
      → Reads fuel literal content
      → Reads (suc (suc fuel)) (b'\\' ∷ c ∷ literal) (c ∷ content)
  Reads-quoted fuel c literal content quoted more rest acc before consumed st h =
      string_loop-step (suc fuel) normal acc consumed h string_step-backslash
      ∙ (string_loop-step fuel escape (acc ++ []) (consumed + len_utf8 b'\\') (moved-At h)
            (string_step-escaped c quoted)
          ∙ (more rest ((acc ++ []) ++ c ∷ []) ((before ++ b'\\' ∷ []) ++ c ∷ [])
                ((consumed + len_utf8 b'\\') + len_utf8 c) (moved (moved st b'\\') c)
                (moved-At (moved-At h))
              ∙ Returned_eq st (rw append-nil (append_assoc acc (c ∷ []) content))
                  (omega (arith, bytes-cons b'\\' (c ∷ literal), bytes-cons c literal))
                  (omega (arith, bytes-cons b'\\' (c ∷ literal), bytes-cons c literal))))

  string_loop-escaped :
      (fuel : ℕ) (content : Text)
      → length (escaped content) < fuel
      → Reads fuel (escaped content) content
  unfolding escaped
  string_loop-escaped zero content lt = absurd (omega arith)
  string_loop-escaped (suc fuel) [] lt = λ rest acc before consumed st h.
      string_loop-closed fuel rest acc before consumed st h
      ∙ Returned_eq st (sym (append-nil acc)) (omega (arith, bytes-nil)) (omega (arith, bytes-nil))
  string_loop-escaped (suc fuel) (c ∷ cs) lt = elim (Bool-cases ((c == b'"') || (c == b'\\'))) [
    | inr plain ↦
        subst (λ l. Reads (suc fuel) l (c ∷ cs)) (sym (escaped-plain c cs plain))
          (Reads-plain fuel c (escaped cs) cs plain
            (string_loop-escaped fuel cs (omega (arith, ap length (escaped-plain c cs plain)))))
    | inl quoted ↦
        at_quoted fuel quoted (omega (arith, ap length (escaped-quoted c cs quoted)))
          λ m lt'. string_loop-escaped m cs lt'
  ]
    where
      at_quoted :
          (fuel : ℕ)
          → (c == b'"') || (c == b'\\') ≡ true
          → suc (length (escaped cs)) < fuel
          → ((m : ℕ) → length (escaped cs) < m → Reads m (escaped cs) cs)
          → Reads (suc fuel) (escaped (c ∷ cs)) (c ∷ cs)
      at_quoted zero quoted l more = absurd (omega arith)
      at_quoted (suc m) quoted l more =
          subst (λ l. Reads (suc (suc m)) l (c ∷ cs)) (sym (escaped-quoted c cs quoted))
            (Reads-quoted m c (escaped cs) cs quoted (more m (omega arith)))

-- After its opening quote, a literal in which each quote and each backslash of `content` stands
-- behind a backslash is read as `content`, whatever follows its closing quote: the span goes from
-- the opening quote to the closing one, and the tokenizer stands behind it.
pub handle_string-escaped :
    (file : ℕ) (before content rest : Text)
    → let code : Text = before ++ (escaped content ++ b'"' ∷ rest) in
      let end : ℕ = bytes before + bytes (escaped content) + 1 in
      handle_string (record { file_id = file; code = code; byte = bytes before })
      ≡ ok (
        (Token.string content, record { file_id = file; start = bytes before - 1; end = end }),
        record { file_id = file; code = code; byte = end },
      )
unfolding handle_string
handle_string-escaped file before content rest = ap finished read ∙ ap at_start (omega arith)
  where
    code : Text
    code = before ++ (escaped content ++ b'"' ∷ rest)

    st : Tokenizer
    st = record { file_id = file; code = code; byte = bytes before }

    end : ℕ
    end = bytes before + bytes (escaped content) + 1

    finished :
        Outcome CompileError ((Text × ℕ) × Tokenizer)
        → Outcome CompileError (Spanned Token × Tokenizer)
    finished r = bind r λ ((text, consumed), st₁).
        bind (span consumed st₁) λ (s, st₂). ok ((Token.string text, s), st₂)

    at_start : ℕ → Outcome CompileError (Spanned Token × Tokenizer)
    at_start start = ok (
      (Token.string content, record { file_id = file; start = start; end = end }),
      record { file_id = file; code = code; byte = end },
    )

    read :
        string_loop (fuel_of st) normal [] 1 st
        ≡ Returned st content (1 + bytes (escaped content) + 1) end
    read =
        string_loop-escaped file code (fuel_of st) content
          (omega (
            arith,
            length-append before (escaped content ++ b'"' ∷ rest),
            length-append (escaped content) (b'"' ∷ rest),
          ))
          rest [] before 1 st
          (record { same_file = refl; same_code = refl; split = refl; offset = refl })
