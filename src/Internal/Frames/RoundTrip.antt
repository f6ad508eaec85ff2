-- ===== src/Internal/Frames/RoundTrip.antt =====
-- lib.rs: frames are read as they were written.
use serpentine.Prelude.{
  ℕ, zero, suc, ◌+◌, ◌*◌, ◌<◌, ◌≡◌, refl, sym, subst, Option, some, List, [], ◌∷◌, ◌++◌,
  append_assoc, length, arith,
}
use serpentine.Prelude.Outcome.{ok}
use serpentine.Internal.Frames.{
  le_bytes, from_le_bytes, read_exact, read_u64_le, write_postcard_frame, read_postcard_frame,
}
use Prim.Native.Nat.{◌/◌, ◌%◌}

div_mod : (n : ℕ) → n % 256 + 256 * (n / 256) ≡ n
div_mod n = omega arith

-- 256 to the power of `k`.
abbrev bound : ℕ → ℕ
bound zero = 1
bound (suc k) = 256 * bound k

from_le_bytes-le_bytes : (k n : ℕ) → n < bound k → from_le_bytes (le_bytes k n) ≡ n
unfolding from_le_bytes le_bytes
from_le_bytes-le_bytes zero n lt = omega arith
from_le_bytes-le_bytes (suc k) n lt =
    let small : n / 256 < bound k = omega arith in
    rw (from_le_bytes-le_bytes k (n / 256) small) (div_mod n)

read_exact-append :
    (taken left : List ℕ) → read_exact (length taken) (taken ++ left) ≡ ok (taken, left)
unfolding read_exact
read_exact-append [] left = refl
read_exact-append (b ∷ bs) left = rw (read_exact-append bs left) refl

length-le_bytes : (k n : ℕ) → length (le_bytes k n) ≡ k
unfolding le_bytes
length-le_bytes zero n = refl
length-le_bytes (suc k) n = omega (arith, length-le_bytes k (n / 256))

read_u64_le-le_bytes :
    (n : ℕ) (left : List ℕ) → n < bound 8 → read_u64_le (le_bytes 8 n ++ left) ≡ ok (n, left)
unfolding read_u64_le
read_u64_le-le_bytes n left lt =
    let eight : read_exact 8 (le_bytes 8 n ++ left) ≡ ok (le_bytes 8 n, left) =
      subst (λ k. read_exact k (le_bytes 8 n ++ left) ≡ ok (le_bytes 8 n, left))
        (length-le_bytes 8 n) (read_exact-append (le_bytes 8 n) left) in
    rw (eight, from_le_bytes-le_bytes 8 n lt) refl

read_at :
    {A : Type 0} (from_bytes : List ℕ → Option A) (bs buffer rest : List ℕ) (value : A)
    → read_u64_le bs ≡ ok (length buffer, buffer ++ rest)
    → from_bytes buffer ≡ some value
    → read_postcard_frame from_bytes bs ≡ ok (value, rest)
unfolding read_postcard_frame
read_at from_bytes bs buffer rest value h back = rw (h, read_exact-append buffer rest, back) refl

-- A frame of fewer than 2 ^ 64 bytes is read back as the value that was written, where the
-- serializer does so for that value, and reading stops at its end, whatever follows.
pub read_postcard_frame-write_postcard_frame :
    {A : Type 0} (to_stdvec : A → List ℕ) (from_bytes : List ℕ → Option A) (value : A)
    (rest : List ℕ)
    → from_bytes (to_stdvec value) ≡ some value
    → length (to_stdvec value) < 18446744073709551616
    → read_postcard_frame from_bytes (write_postcard_frame to_stdvec value [] ++ rest)
      ≡ ok (value, rest)
unfolding write_postcard_frame le_bytes
read_postcard_frame-write_postcard_frame to_stdvec from_bytes value rest back lt =
    let buffer = to_stdvec value in
    let header = le_bytes 8 (length buffer) in
    read_at from_bytes ((header ++ buffer) ++ rest) buffer rest value
      (subst (λ bs. read_u64_le bs ≡ ok (length buffer, buffer ++ rest))
        (sym (append_assoc header buffer rest))
        (read_u64_le-le_bytes (length buffer) (buffer ++ rest) lt))
      back
