-- ===== src/Engine/Cache/Local/Trace.antt =====
-- filesystem_backend.rs: what processes may do with the folder, and what callers see of it.
use serpentine.Prelude.{
  ℕ, Bool, true, false, ◌≡◌, Option, none, some, List, [], ◌∷◌, ◌++◌, ◌==◌, nat_eq, list_eq,
  if◌then◌else◌,
}
use serpentine.Prelude.Text.{Text}
use serpentine.Engine.Cache.Local.{
  CacheHash, Stage, writing, renaming, finished, ScratchFile, Folder, Poll, ready, write_key,
  poll_write, moved, poll_shutdown,
}

-- What callers see of the writers, the newest first.
pub data Event : Type 0 where
  opened : ℕ → CacheHash → Event
  wrote : ℕ → List ℕ → Event
  closed : ℕ → Event
  quiet : Event

abbrev pub key_of : ℕ → List Event → Option CacheHash
key_of u [] = none
key_of u (opened v key ∷ tr) = if u == v then some key else key_of u tr
key_of u (_ ∷ tr) = key_of u tr

-- All that was written, in order.
abbrev pub contents_of : ℕ → List Event → List ℕ
contents_of u [] = []
contents_of u (wrote v bytes ∷ tr) = if u == v then contents_of u tr ++ bytes else contents_of u tr
contents_of u (_ ∷ tr) = contents_of u tr

abbrev pub is_closed : ℕ → List Event → Bool
is_closed u [] = false
is_closed u (closed v ∷ tr) = if u == v then true else is_closed u tr
is_closed u (_ ∷ tr) = is_closed u tr

-- A poll closes a file that was still written.
abbrev pub polled_at : ℕ → Stage → Event
polled_at u writing = closed u
polled_at u renaming = quiet
polled_at u finished = quiet

abbrev pub polled : ℕ → Poll → Option ScratchFile → Event
polled u ready (some s) = polled_at u s.stage
polled u _ _ = quiet

abbrev pub past : Stage → Bool
past writing = false
past renaming = true
past finished = true

abbrev pub key_in : Option ScratchFile → Option CacheHash
key_in none = none
key_in (some s) = some s.key

abbrev pub contents_in : Option ScratchFile → List ℕ
contents_in none = []
contents_in (some s) = s.contents

abbrev pub closed_in : Option ScratchFile → Bool
closed_in none = false
closed_in (some s) = past s.stage

-- The trace tells of a scratch file what it holds.
abbrev pub Tells : ℕ → Option ScratchFile → List Event → Type 0
Tells u o tr =
    (key_of u tr ≡ key_in o) × ((contents_of u tr ≡ contents_in o) × (is_closed u tr ≡ closed_in o))

module _ (encode : CacheHash → Text) where
  -- Whatever processes do with the folder, one call at a time: a writer may stop anywhere, and a
  -- rename that was begun may take place later.
  pub data Step (w : Folder) : Event → Folder → Type 0 where
    open_entry :
        (process u : ℕ) (key : CacheHash)
        → (write_key encode process key u w).0 ≡ true
        → Step w (opened u key) (write_key encode process key u w).1
    refuse_entry :
        (process u : ℕ) (key : CacheHash)
        → (write_key encode process key u w).0 ≡ false
        → Step w quiet (write_key encode process key u w).1
    write_bytes :
        (u : ℕ) (bytes : List ℕ) (w' : Folder)
        → poll_write encode u bytes w ≡ some w'
        → Step w (wrote u bytes) w'
    shut_down :
        (u : ℕ) (file rename : Poll)
        → Step w (polled u file (w.scratch u)) (poll_shutdown encode u file rename w).1
    rename_late :
        (u : ℕ) (s : ScratchFile)
        → w.scratch u ≡ some s
        → s.stage ≡ renaming
        → Step w quiet (moved encode u s w)

  pub data Run (w : Folder) : List Event → Folder → Type 0 where
    start : Run w [] w
    then_step :
        {tr : List Event} {e : Event} {w' w'' : Folder}
        → Run w tr w'
        → Step w' e w''
        → Run w (e ∷ tr) w''

  -- One writer of the key wrote these bytes and no others, and was shut down.
  abbrev pub IsWhole : Text → List ℕ → List Event → Type 0
  IsWhole name bytes tr =
      (u : ℕ) × (key : CacheHash) × ((encode key ≡ name)
        × ((key_of u tr ≡ some key) × ((is_closed u tr ≡ true) × (contents_of u tr ≡ bytes))))

  abbrev pub Invariant : Folder → List Event → Type 0
  Invariant w tr =
      ((u : ℕ) → Tells u (w.scratch u) tr)
      × ((name : Text) (bytes : List ℕ) → w.entries name ≡ some bytes → IsWhole name bytes tr)

-- A folder without entries or scratch files.
abbrev pub vacant : Folder
vacant = record { entries = λ name. none; scratch = λ u. none; locks = λ process. [] }
