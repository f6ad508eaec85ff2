-- ===== src/Engine/Cache/Local.antt =====
-- engine/cache/filesystem_backend.rs: LocalCacheBackend and ScratchFile. The folder of the entries
-- and that of the scratch files are two maps; several processes may share them, each with locks of
-- its own. A scratch file is known by its uuid, and `encode` names the file of a key.
pub mod Trace
pub mod Keeps
pub mod Complete
use serpentine.Prelude.{
  ℕ, Bool, true, false, ◌||◌, ◌≡◌, Option, none, some, List, [], ◌∷◌, ◌++◌, ◌==◌, nat_eq, list_eq,
  if◌then◌else◌,
}
use serpentine.Prelude.Text.{Text}

-- A CacheHash is its bytes.
abbrev pub CacheHash : Type 0
CacheHash = List ℕ

pub data Stage : Type 0 where
  writing renaming finished : Stage

-- `contents` is what the file holds, and `key` gives its destination.
pub record ScratchFile : Type 0 where
  pub stage : Stage
  pub contents : List ℕ
  pub key : CacheHash

pub record Folder : Type 0 where
  pub entries : Text → Option (List ℕ)
  pub scratch : ℕ → Option ScratchFile
  pub locks : ℕ → List CacheHash

abbrev pub set_scratch : ℕ → ScratchFile → Folder → Folder
set_scratch uuid s w = record w { scratch = λ u. if u == uuid then some s else w.scratch u }

abbrev pub contains : CacheHash → List CacheHash → Bool
contains key [] = false
contains key (k ∷ keys) = (k == key) || contains key keys

abbrev pub lock : ℕ → CacheHash → Folder → Folder
lock process key w = record w { locks = λ p. if p == process then key ∷ w.locks p else w.locks p }

abbrev pub is_some : {A : Type 0} → Option A → Bool
is_some none = false
is_some (some a) = true

-- What a poll of the file system answers.
pub data Poll : Type 0 where
  pending ready failed : Poll

module _ (encode : CacheHash → Text) where
  unfoldable pub read_key : CacheHash → Folder → Option (List ℕ)
  read_key key w = w.entries (encode key)

  abbrev pub started : CacheHash → ScratchFile
  started key = record { stage = writing; contents = []; key = key }

  -- Whether the key is locked, and whether its entry or the scratch file is there.
  abbrev pub claimed : Bool → Bool → ℕ → CacheHash → ℕ → Folder → Bool × Folder
  claimed true present process key uuid w = (false, w)
  claimed false true process key uuid w = (false, lock process key w)
  claimed false false process key uuid w =
      (true, set_scratch uuid (started key) (lock process key w))

  -- Whether there is a writer, and the folder; `ScratchFile::create` wants a new file.
  unfoldable pub write_key : ℕ → CacheHash → ℕ → Folder → Bool × Folder
  write_key process key uuid w =
      claimed (contains key (w.locks process))
        (is_some (w.entries (encode key)) || is_some (w.scratch uuid)) process key uuid w

  abbrev pub written_at : ℕ → ScratchFile → Stage → List ℕ → Folder → Option Folder
  written_at uuid s writing bytes w =
      some (set_scratch uuid (record s { contents = s.contents ++ bytes }) w)
  written_at uuid s renaming bytes w = none
  written_at uuid s finished bytes w = none

  abbrev pub written : ℕ → List ℕ → Folder → Option ScratchFile → Option Folder
  written uuid bytes w none = none
  written uuid bytes w (some s) = written_at uuid s s.stage bytes w

  -- The bytes that the file takes; none where the entry is already finished.
  unfoldable pub poll_write : ℕ → List ℕ → Folder → Option Folder
  poll_write uuid bytes w = written uuid bytes w (w.scratch uuid)

  -- `tokio::fs::rename`
  abbrev pub moved : ℕ → ScratchFile → Folder → Folder
  moved uuid s w =
      set_scratch uuid (record s { stage = finished })
        (record w {
          entries = λ name. if name == encode s.key then some s.contents else w.entries name;
        })

  abbrev pub poll_rename : ℕ → ScratchFile → Poll → Folder → Poll × Folder
  poll_rename uuid s pending w = (pending, w)
  poll_rename uuid s failed w = (failed, w)
  poll_rename uuid s ready w = (ready, moved uuid s w)

  abbrev pub poll_file : ℕ → ScratchFile → Poll → Poll → Folder → Poll × Folder
  poll_file uuid s pending rename w = (pending, w)
  poll_file uuid s failed rename w = (failed, w)
  poll_file uuid s ready rename w =
      let s' = record s { stage = renaming } in poll_rename uuid s' rename (set_scratch uuid s' w)

  abbrev pub poll_at : ℕ → ScratchFile → Stage → Poll → Poll → Folder → Poll × Folder
  poll_at uuid s writing file rename w = poll_file uuid s file rename w
  poll_at uuid s renaming file rename w = poll_rename uuid s rename w
  poll_at uuid s finished file rename w = (ready, w)

  abbrev pub poll_stage : ℕ → Poll → Poll → Folder → Option ScratchFile → Poll × Folder
  poll_stage uuid file rename w none = (failed, w)
  poll_stage uuid file rename w (some s) = poll_at uuid s s.stage file rename w

  -- With what the file's shutdown and the rename answer; from stage to stage in one call.
  unfoldable pub poll_shutdown : ℕ → Poll → Poll → Folder → Poll × Folder
  poll_shutdown uuid file rename w = poll_stage uuid file rename w (w.scratch uuid)
