-- ===== src/Tests/Entries.antt =====
-- An entry of the cache, from its start to its reading.
use serpentine.Prelude.{ℕ, ◌≡◌, refl, false, Option, some, none, List, [], ◌∷◌}
use serpentine.Prelude.Text.{Text}
use serpentine.Engine.Cache.Local.{
  CacheHash, Folder, ready, pending, read_key, write_key, poll_write, poll_shutdown,
}
use serpentine.Engine.Cache.Local.Trace.{
  opened, wrote, closed, open_entry, write_bytes, shut_down, Run, start, then_step, vacant, IsWhole,
}
use serpentine.Engine.Cache.Local.Complete.{read_key-IsWhole}

abbrev encode : CacheHash → Text
encode key = key

-- The writer 7 of the key 1 in the process 0.
abbrev begun : Folder
begun = (write_key encode 0 (1 ∷ []) 7 vacant).1

abbrev bytes : List ℕ
bytes = 4 ∷ 5 ∷ []

-- Before the shutdown there is nothing to read, and the process has no second writer.
unread : read_key encode (1 ∷ []) begun ≡ none
unfolding read_key write_key
unread = refl

refused : (write_key encode 0 (1 ∷ []) 8 begun).0 ≡ false
unfolding write_key
refused = refl

-- The folder behind the write.
abbrev or_same : Folder → Option Folder → Folder
or_same w none = w
or_same w (some w') = w'

abbrev filled : Folder
filled = or_same begun (poll_write encode 7 bytes begun)

abbrev closed_folder : Folder
closed_folder = (poll_shutdown encode 7 ready ready filled).1

stopped_late : (poll_shutdown encode 7 ready pending filled).0 ≡ pending
unfolding poll_shutdown poll_write write_key
stopped_late = refl

read_back : read_key encode (1 ∷ []) closed_folder ≡ some bytes
unfolding read_key poll_shutdown poll_write write_key
read_back = refl

run : Run encode vacant (closed 7 ∷ wrote 7 bytes ∷ opened 7 (1 ∷ []) ∷ []) closed_folder
unfolding poll_shutdown poll_write write_key
run =
    then_step
      (then_step (then_step start (open_entry 0 7 (1 ∷ []) refl)) (write_bytes 7 bytes filled refl))
      (shut_down 7 ready ready)

read_key-IsWhole_example :
    IsWhole encode (encode (1 ∷ [])) bytes (closed 7 ∷ wrote 7 bytes ∷ opened 7 (1 ∷ []) ∷ [])
read_key-IsWhole_example = read_key-IsWhole encode (1 ∷ []) bytes run read_back
