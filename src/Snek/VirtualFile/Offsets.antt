-- ===== src/Snek/VirtualFile/Offsets.antt =====
-- span.rs: offsets in the concatenation of the files.
use serpentine.Prelude.{
  ℕ, Bool, ap, subst, if◌then◌else◌, ◌+◌, ◌-◌, ◌<◌, ◌≤◌, ◌≡◌, refl, true, false, some, List, [],
  ◌∷◌, ◌++◌, ltb, arith,
}
use serpentine.Prelude.Text.{Text, bytes}
use serpentine.Snek.VirtualFile.{VirtualFile, push, locate}

add_assoc : (a b c : ℕ) → a + b + c ≡ a + (b + c)
add_assoc a b c = omega arith

module _ {P : Type 0} where
  -- The bytes of all files.
  abbrev pub size : List (P × Text) → ℕ
  size [] = 0
  size ((path, code) ∷ files) = bytes code + size files

  abbrev pub IsConsistent : VirtualFile P → Type 0
  IsConsistent v = v.total ≡ size v.files

  locate-append_left :
      (start : ℕ) (files more : List (P × Text)) (offset : ℕ)
      → start ≤ offset
      → offset < start + size files
      → locate start (files ++ more) offset ≡ locate start files offset
  unfolding locate
  locate-append_left start [] more offset le lt = absurd (omega arith)
  locate-append_left start ((path, code) ∷ files) more offset le lt =
      go (ltb offset (start + bytes code)) refl
        (λ past. locate-append_left (start + bytes code) files more offset past (omega arith))
    where
      go :
          (b : Bool)
          → ltb offset (start + bytes code) ≡ b
          → (start + bytes code ≤ offset
              → locate (start + bytes code) (files ++ more) offset
                ≡ locate (start + bytes code) files offset)
          → (if b
              then some ((path, code), offset - start)
              else locate (start + bytes code) (files ++ more) offset)
            ≡ (if b
                then some ((path, code), offset - start)
                else locate (start + bytes code) files offset)
      go true e rest = refl
      go false e rest = rest (ground arith)

  locate-append_right :
      (start : ℕ) (files more : List (P × Text)) (offset : ℕ)
      → start + size files ≤ offset
      → locate start (files ++ more) offset ≡ locate (start + size files) more offset
  unfolding locate
  locate-append_right start [] more offset le = ap (λ s. locate s more offset) (omega arith)
  locate-append_right start ((path, code) ∷ files) more offset le =
      let past : ltb offset (start + bytes code) ≡ false = ground arith in
      rw past (
        subst (λ s. locate (start + bytes code) (files ++ more) offset ≡ locate s more offset)
          (add_assoc (start) (bytes code) (size files))
          (locate-append_right (start + bytes code) files more offset (omega arith)))

  locate-one :
      (start : ℕ) (path : P) (code : Text) (offset : ℕ)
      → offset < bytes code
      → locate start ((path, code) ∷ []) (start + offset) ≡ some ((path, code), offset)
  unfolding locate
  locate-one start path code offset lt =
      let inside : ltb (start + offset) (start + bytes code) ≡ true = ground arith in
      let left : start + offset - start ≡ offset = omega arith in rw (inside, left) refl

  size-append : (files more : List (P × Text)) → size (files ++ more) ≡ size files + size more
  size-append [] more = omega arith
  size-append ((path, code) ∷ files) more = omega (arith, size-append files more)

  -- After `push` the number of bytes is still that of the files. An offset below it that was in a
  -- file before is found where it was, and any other in the new file, counted from its id.
  pub push-locate :
      (v : VirtualFile P) (path : P) (code : Text) (offset : ℕ)
      → IsConsistent v
      → offset < v.total + bytes code
      → IsConsistent (push v path code).0
        × (locate 0 (push v path code).0.files offset ≡ (
            if ltb offset v.total
            then locate 0 v.files offset
            else some ((path, code), offset - (push v path code).1)))
  unfolding push
  push-locate v path code offset h lt =
      (omega (arith, h, size-append v.files ((path, code) ∷ [])), go (ltb offset v.total) refl)
    where
      go :
          (b : Bool)
          → ltb offset v.total ≡ b
          → locate 0 (v.files ++ (path, code) ∷ []) offset
            ≡ (if b then locate 0 v.files offset else some ((path, code), offset - v.total))
      go true e = locate-append_left 0 v.files _ offset (omega arith) (ground arith)
      go false e =
          let past : v.total ≤ offset = ground arith in
          let sum : 0 + size v.files + (offset - v.total) ≡ offset = omega arith in
          rw (locate-append_right 0 v.files ((path, code) ∷ []) offset (omega arith)) (
            subst
              (λ o.
                locate (0 + size v.files) ((path, code) ∷ []) o
                ≡ some ((path, code), offset - v.total))
              sum (locate-one (0 + size v.files) path code (offset - v.total) (omega arith)))
