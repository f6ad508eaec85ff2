-- ===== src/Engine/Cache/Local/Complete.antt =====
-- filesystem_backend.rs: an entry is what one writer wrote from its start to its shutdown.
use serpentine.Prelude.{
  ℕ, Bool, true, false, ◌||◌, ◌≡◌, refl, subst, Option, none, some, List, ◌∷◌, ◌++◌, nat_eq,
  list_eq,
}
use serpentine.Prelude.Text.{Text}
use serpentine.Engine.Cache.Local.{
  CacheHash, Stage, writing, renaming, finished, ScratchFile, Folder, set_scratch, is_some, Poll,
  pending, ready, failed, read_key, write_key, poll_write, poll_shutdown, lock, contains, written,
  written_at, claimed, poll_at, poll_rename, poll_stage,
}
use serpentine.Engine.Cache.Local.Trace.{
  Event, opened, wrote, closed, polled_at, polled, past, Step, open_entry, refuse_entry,
  write_bytes, shut_down, rename_late, Run, start, then_step, vacant, IsWhole, Invariant,
}
use serpentine.Engine.Cache.Local.Keeps.{
  self, opened-Invariant, wrote-Invariant, closed-Invariant, moved-Invariant,
}

module _ (encode : CacheHash → Text) where
  write_key-open :
      (w : Folder) (tr : List Event) (process u : ℕ) (key : CacheHash)
      → Invariant encode w tr
      → (write_key encode process key u w).0 ≡ true
      → Invariant encode (write_key encode process key u w).1 (opened u key ∷ tr)
  unfolding write_key
  write_key-open w tr process u key inv =
      go (contains key (w.locks process)) (is_some (w.entries (encode key))) (w.scratch u) refl
    where
      go :
          (locked present : Bool) (o : Option ScratchFile)
          → w.scratch u ≡ o
          → (claimed encode locked (present || is_some o) process key u w).0 ≡ true
          → Invariant encode
              (claimed encode locked (present || is_some o) process key u w).1
              (opened u key ∷ tr)
      go true present o e h = absurd (cc)
      go false true o e h = absurd (cc)
      go false false (some s) e h = absurd (cc)
      go false false none e h = opened-Invariant encode w tr u key (lock process key w).locks e inv

  write_key-refuse :
      (w : Folder) (tr : List Event) (process u : ℕ) (key : CacheHash)
      → Invariant encode w tr
      → (write_key encode process key u w).0 ≡ false
      → Invariant encode (write_key encode process key u w).1 tr
  unfolding write_key
  write_key-refuse w tr process u key inv =
      go (contains key (w.locks process))
        (is_some (w.entries (encode key)) || is_some (w.scratch u))
    where
      go :
          (locked present : Bool)
          → (claimed encode locked present process key u w).0 ≡ false
          → Invariant encode (claimed encode locked present process key u w).1 tr
      go true present h = inv
      go false true h = inv
      go false false h = absurd (cc)

  poll_write-wrote :
      (w w' : Folder) (tr : List Event) (u : ℕ) (bytes : List ℕ)
      → Invariant encode w tr
      → poll_write encode u bytes w ≡ some w'
      → Invariant encode w' (wrote u bytes ∷ tr)
  unfolding poll_write
  poll_write-wrote w w' tr u bytes inv = go (w.scratch u) refl
    where
      at_stage :
          (s : ScratchFile) (stage : Stage)
          → w.scratch u ≡ some s
          → s.stage ≡ stage
          → written_at encode u s stage bytes w ≡ some w'
          → Invariant encode w' (wrote u bytes ∷ tr)
      at_stage s writing e early h =
          let same : set_scratch u (record s { contents = s.contents ++ bytes }) w ≡ w' = cc in
          subst (λ x. Invariant encode x (wrote u bytes ∷ tr)) same
            (wrote-Invariant encode w tr u bytes s e early inv)
      at_stage s renaming e early h = absurd (cc)
      at_stage s finished e early h = absurd (cc)

      go :
          (o : Option ScratchFile)
          → w.scratch u ≡ o
          → written encode u bytes w o ≡ some w'
          → Invariant encode w' (wrote u bytes ∷ tr)
      go none e h = absurd (cc)
      go (some s) e h = at_stage s s.stage e refl h

  poll_rename-kept :
      (w : Folder) (tr : List Event) (u : ℕ) (s : ScratchFile) (rename : Poll)
      → w.scratch u ≡ some s
      → past s.stage ≡ true
      → Invariant encode w tr
      → Invariant encode (poll_rename encode u s rename w).1 tr
  poll_rename-kept w tr u s pending e late inv = inv
  poll_rename-kept w tr u s failed e late inv = inv
  poll_rename-kept w tr u s ready e late inv = moved-Invariant encode w tr u s e late inv

  poll_shutdown-closed :
      (w : Folder) (tr : List Event) (u : ℕ) (file rename : Poll)
      → Invariant encode w tr
      → Invariant encode (poll_shutdown encode u file rename w).1 (polled u file (w.scratch u) ∷ tr)
  unfolding poll_shutdown
  poll_shutdown-closed w tr u file rename inv = go (w.scratch u) file refl
    where
      at_stage :
          (s : ScratchFile) (stage : Stage)
          → w.scratch u ≡ some s
          → s.stage ≡ stage
          → Invariant encode (poll_at encode u s stage ready rename w).1 (polled_at u stage ∷ tr)
      at_stage s writing e same =
          poll_rename-kept (set_scratch u (record s { stage = renaming }) w) (closed u ∷ tr) u
            (record s { stage = renaming }) rename (rw (self encode u) refl) refl
            (closed-Invariant encode w tr u s e inv)
      at_stage s renaming e same = poll_rename-kept w tr u s rename e (rw same refl) inv
      at_stage s finished e same = inv

      not_yet :
          (s : ScratchFile) (stage : Stage)
          → w.scratch u ≡ some s
          → s.stage ≡ stage
          → Invariant encode (poll_at encode u s stage pending rename w).1 tr
            × Invariant encode (poll_at encode u s stage failed rename w).1 tr
      not_yet s writing e same = (inv, inv)
      not_yet s renaming e same =
          let kept = poll_rename-kept w tr u s rename e (rw same refl) inv in (kept, kept)
      not_yet s finished e same = (inv, inv)

      go :
          (o : Option ScratchFile) (file : Poll)
          → w.scratch u ≡ o
          → Invariant encode (poll_stage encode u file rename w o).1 (polled u file o ∷ tr)
      go none pending e = inv
      go none failed e = inv
      go none ready e = inv
      go (some s) ready e = at_stage s s.stage e refl
      go (some s) pending e = (not_yet s s.stage e refl).0
      go (some s) failed e = (not_yet s s.stage e refl).1

  Step-Invariant :
      {w w' : Folder} {e : Event} (tr : List Event)
      → Step encode w e w'
      → Invariant encode w tr
      → Invariant encode w' (e ∷ tr)
  Step-Invariant {w} tr (open_entry process u key h) inv = write_key-open w tr process u key inv h
  Step-Invariant {w} tr (refuse_entry process u key h) inv =
      write_key-refuse w tr process u key inv h
  Step-Invariant {w} tr (write_bytes u bytes w' h) inv = poll_write-wrote w w' tr u bytes inv h
  Step-Invariant {w} tr (shut_down u file rename) inv = poll_shutdown-closed w tr u file rename inv
  Step-Invariant {w} tr (rename_late u s e same) inv =
      moved-Invariant encode w tr u s e (rw same refl) inv

  Run-Invariant : {w : Folder} {tr : List Event} → Run encode vacant tr w → Invariant encode w tr
  Run-Invariant start = ((λ u. (refl, (refl, refl))), λ name bytes e. absurd (cc))
  Run-Invariant (then_step {tr} r st) = Step-Invariant tr st (Run-Invariant r)

  -- Whatever several processes do with a folder, stopped or not, an entry that is read is all that one
  -- writer wrote, from its start to its shutdown, under the file name of the key.
  pub read_key-IsWhole :
      {w : Folder} {tr : List Event} (key : CacheHash) (bytes : List ℕ)
      → Run encode vacant tr w
      → read_key encode key w ≡ some bytes
      → IsWhole encode (encode key) bytes tr
  unfolding read_key
  read_key-IsWhole key bytes r e = (Run-Invariant r).1 (encode key) bytes e
