-- ===== src/Engine/Cache/Local/Keeps.antt =====
-- filesystem_backend.rs: each change of a scratch file keeps the entries whole.
use serpentine.Prelude.{
  ℕ, true, false, ◌≡◌, refl, sym, ap, ◌∙◌, subst, inl, inr, Option, none, some, List, [], ◌∷◌, ◌++◌,
  ◌==◌, nat_eq, list_eq, list_beq_iff, nat_beq_iff, Bool-cases, if◌then◌else◌,
}
use serpentine.Prelude.Text.{Text}
use serpentine.Engine.Cache.Local.{
  CacheHash, writing, renaming, finished, ScratchFile, Folder, set_scratch, moved,
}
use serpentine.Engine.Cache.Local.Trace.{
  Event, opened, wrote, closed, quiet, key_of, contents_of, is_closed, past, Tells, IsWhole,
  Invariant,
}

module _ (encode : CacheHash → Text) where
  -- A scratch file changes: what the trace tells of it is what it holds then.
  changed :
      (w : Folder) (tr : List Event) (e : Event) (u : ℕ) (s : ScratchFile)
      → ((v : ℕ) → Tells v (w.scratch v) tr)
      → Tells u (some s) (e ∷ tr)
      → ((v : ℕ)
          → (v == u) ≡ false
          → (key_of v (e ∷ tr) ≡ key_of v tr)
            × ((contents_of v (e ∷ tr) ≡ contents_of v tr)
                × (is_closed v (e ∷ tr) ≡ is_closed v tr)))
      → (v : ℕ) → Tells v (if v == u then some s else w.scratch v) (e ∷ tr)
  changed w tr e u s tells here others v = elim (Bool-cases (v == u)) [
    | inl p ↦ rw p (subst (λ x. Tells x (some s) (e ∷ tr)) (sym ((nat_beq_iff v u).0 p)) here)
    | inr p ↦
        let (k, (c, h)) = others v p in
        let (k', (c', h')) = tells v in rw p (k ∙ k', (c ∙ c', h ∙ h'))
  ]

  -- What was whole stays so, where the trace tells of closed files what it told.
  still-IsWhole :
      (tr : List Event) (e : Event)
      → ((v : ℕ)
          → is_closed v tr ≡ true
          → (key : CacheHash) → key_of v tr ≡ some key
          → (key_of v (e ∷ tr) ≡ key_of v tr)
            × ((contents_of v (e ∷ tr) ≡ contents_of v tr) × (is_closed v (e ∷ tr) ≡ true)))
      → (name : Text) (bytes : List ℕ) → IsWhole encode name bytes tr
      → IsWhole encode name bytes (e ∷ tr)
  still-IsWhole tr e same name bytes (v, key, (n, (o, (c, h)))) =
      let (k, (c', h')) = same v c key o in (v, key, (n, (k ∙ o, (h', c' ∙ h))))

  pub self : (u : ℕ) → (u == u) ≡ true
  self u = (nat_beq_iff u u).1 refl

  Tells-at :
      (w : Folder) (tr : List Event) (u : ℕ) (o : Option ScratchFile)
      → Invariant encode w tr
      → w.scratch u ≡ o
      → Tells u o tr
  Tells-at w tr u o (tells, whole) e = subst (λ x. Tells u x tr) e (tells u)

  pub opened-Invariant :
      (w : Folder) (tr : List Event) (u : ℕ) (key : CacheHash) (locks : ℕ → List CacheHash)
      → w.scratch u ≡ none
      → Invariant encode w tr
      → Invariant encode
          (set_scratch u
            (record { stage = writing; contents = []; key = key })
            (record w { locks = locks }))
          (opened u key ∷ tr)
  opened-Invariant w tr u key locks e inv =
      let (k, (c, h)) = Tells-at w tr u none inv e in
      (
        changed w tr (opened u key) u (record { stage = writing; contents = []; key = key }) inv.0
            (rw (self u) (refl, (c, h))) (λ v p. rw p (refl, (refl, refl))),
        λ name bytes q.
            still-IsWhole tr (opened u key)
              (λ v closed key' o. elim (Bool-cases (v == u)) [
                | inl p ↦
                    let same : v ≡ u = (nat_beq_iff v u).0 p in
                    absurd (cc (ap (λ x. key_of x tr) same, k, o))
                | inr p ↦ rw p (refl, (refl, closed))
              ])
              name bytes (inv.1 name bytes q),
      )

  pub wrote-Invariant :
      (w : Folder) (tr : List Event) (u : ℕ) (bytes : List ℕ) (s : ScratchFile)
      → w.scratch u ≡ some s
      → s.stage ≡ writing
      → Invariant encode w tr
      → Invariant encode
          (set_scratch u (record s { contents = s.contents ++ bytes }) w)
          (wrote u bytes ∷ tr)
  wrote-Invariant w tr u bytes s e early inv =
      let (k, (c, h)) = Tells-at w tr u (some s) inv e in
      let early' : is_closed u tr ≡ false = h ∙ ap past early in
      (
        changed w tr (wrote u bytes) u (record s { contents = s.contents ++ bytes }) inv.0
            (rw (self u) (k, (ap (λ x. x ++ bytes) c, h))) (λ v p. rw p (refl, (refl, refl))),
        λ name bytes' q.
            still-IsWhole tr (wrote u bytes)
              (λ v closed key' o. elim (Bool-cases (v == u)) [
                | inl p ↦
                    let same : v ≡ u = (nat_beq_iff v u).0 p in
                    absurd (cc (ap (λ x. is_closed x tr) same, early', closed))
                | inr p ↦ rw p (refl, (refl, closed))
              ])
              name bytes' (inv.1 name bytes' q),
      )

  pub closed-Invariant :
      (w : Folder) (tr : List Event) (u : ℕ) (s : ScratchFile)
      → w.scratch u ≡ some s
      → Invariant encode w tr
      → Invariant encode (set_scratch u (record s { stage = renaming }) w) (closed u ∷ tr)
  closed-Invariant w tr u s e inv =
      let (k, (c, h)) = Tells-at w tr u (some s) inv e in
      (
        changed w tr (closed u) u (record s { stage = renaming }) inv.0 (rw (self u) (k, (c, refl)))
            (λ v p. rw p (refl, (refl, refl))),
        λ name bytes q.
            still-IsWhole tr (closed u)
              (λ v closed key' o. elim (Bool-cases (v == u)) [
                | inl p ↦ rw p (refl, (refl, refl))
                | inr p ↦ rw p (refl, (refl, closed))
              ])
              name bytes (inv.1 name bytes q),
      )

  pub moved-Invariant :
      (w : Folder) (tr : List Event) (u : ℕ) (s : ScratchFile)
      → w.scratch u ≡ some s
      → past s.stage ≡ true
      → Invariant encode w tr
      → Invariant encode (moved encode u s w) (quiet ∷ tr)
  moved-Invariant w tr u s e late inv =
      let (k, (c, h)) = Tells-at w tr u (some s) inv e in
      (
        changed w tr quiet u (record s { stage = finished }) inv.0 (k, (c, h ∙ late))
            (λ v p. (refl, (refl, refl))),
        λ name bytes q. elim (Bool-cases (name == encode s.key)) [
          | inl p ↦
              let stored : (if true then some s.contents else w.entries name) ≡ some bytes =
                rw p at q in
              (
                u,
                s.key,
                (sym ((list_beq_iff name (encode s.key)).0 p), (k, (h ∙ late, cc (c, stored)))),
              )
          | inr p ↦ let stored : w.entries name ≡ some bytes = rw p at q in inv.1 name bytes stored
        ],
      )
