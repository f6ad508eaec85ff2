-- ===== src/Tests/Frame.antt =====
-- A frame of three bytes, written and read.
use serpentine.Prelude.{ℕ, ◌≡◌, refl, List, [], ◌∷◌, ◌++◌, Option, some, arith}
use serpentine.Prelude.Outcome.{ok, err}
use serpentine.Internal.Frames.{unexpected_eof, write_postcard_frame, read_postcard_frame}
use serpentine.Internal.Frames.RoundTrip.{read_postcard_frame-write_postcard_frame}

-- Bytes as they are.
abbrev bytes_of : List ℕ → List ℕ
bytes_of bs = bs

abbrev as_bytes : List ℕ → Option (List ℕ)
as_bytes bs = some bs

cut_off :
    read_postcard_frame as_bytes (3 ∷ 0 ∷ 0 ∷ 0 ∷ 0 ∷ 0 ∷ 0 ∷ 0 ∷ 7 ∷ 8 ∷ []) ≡ err unexpected_eof
unfolding read_postcard_frame
cut_off = refl

read_postcard_frame-write_postcard_frame_example :
    read_postcard_frame as_bytes (write_postcard_frame bytes_of (7 ∷ 8 ∷ 9 ∷ []) [] ++ 1 ∷ 2 ∷ [])
    ≡ ok (7 ∷ 8 ∷ 9 ∷ [], 1 ∷ 2 ∷ [])
read_postcard_frame-write_postcard_frame_example =
    read_postcard_frame-write_postcard_frame bytes_of as_bytes (7 ∷ 8 ∷ 9 ∷ []) (1 ∷ 2 ∷ []) refl
      (omega arith)
