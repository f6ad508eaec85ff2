-- ===== src/Internal/Frames.antt =====
-- serpentine_internal/src/lib.rs: values in a stream of bytes, each behind its length. The reader is
-- the bytes that are left and the writer those that are added; the serializer is a parameter.
pub mod RoundTrip
use serpentine.Prelude.{ℕ, zero, suc, ◌+◌, ◌*◌, Option, none, some, List, [], ◌∷◌, ◌++◌, length}
use serpentine.Prelude.Outcome.{Outcome, ok, err, bind}
use Prim.Native.Nat.{◌/◌, ◌%◌}

pub data FrameError : Type 0 where
  unexpected_eof deserialization : FrameError

-- The little endian bytes of a number.
unfoldable pub le_bytes : ℕ → ℕ → List ℕ
le_bytes zero n = []
le_bytes (suc k) n = n % 256 ∷ le_bytes k (n / 256)

unfoldable pub from_le_bytes : List ℕ → ℕ
from_le_bytes [] = 0
from_le_bytes (b ∷ bs) = b + 256 * from_le_bytes bs

-- `read_exact`: the bytes, and those that are left.
unfoldable pub read_exact : ℕ → List ℕ → Outcome FrameError (List ℕ × List ℕ)
read_exact zero bs = ok ([], bs)
read_exact (suc n) [] = err unexpected_eof
read_exact (suc n) (b ∷ bs) = bind (read_exact n bs) λ (taken, left). ok (b ∷ taken, left)

unfoldable pub read_u64_le : List ℕ → Outcome FrameError (ℕ × List ℕ)
unfolding read_exact from_le_bytes
read_u64_le bs = bind (read_exact 8 bs) λ (taken, left). ok (from_le_bytes taken, left)

module _ {A : Type 0} where
  unfoldable pub write_postcard_frame : (A → List ℕ) → A → List ℕ → List ℕ
  unfolding le_bytes
  write_postcard_frame to_stdvec value writer =
      let buffer = to_stdvec value in writer ++ le_bytes 8 (length buffer) ++ buffer

  abbrev pub deserialized : Option A → List ℕ → Outcome FrameError (A × List ℕ)
  deserialized none left = err deserialization
  deserialized (some value) left = ok (value, left)

  unfoldable pub read_postcard_frame :
      (List ℕ → Option A) → List ℕ → Outcome FrameError (A × List ℕ)
  unfolding read_u64_le read_exact
  read_postcard_frame from_bytes reader = bind (read_u64_le reader) λ (length, rest).
      bind (read_exact length rest) λ (buffer, left). deserialized (from_bytes buffer) left
