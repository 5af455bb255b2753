-- ===== src/Binary/Bytes.antt =====
-- A number of 32 bits that is gathered a byte at a time, as src/woff2.rs and src/tag.rs do.
use allsorts.Base.{
  ℕ, ◌+◌, ◌*◌, ◌%◌, ◌^◌, ◌<◌, ◌≤◌, ◌≡◌, refl, ap, ◌∙◌, arith, bit_or, List, [], ◌∷◌, All,
}
use allsorts.Base.Bits.{bit_or_disjoint}
use allsorts.Binary.Read.{IsByte, shl}
use allsorts.Binary.Read.Values.{from_be}
use native.Mathlib.Nat.{mod-eq_of_lt}

-- `(x << 8) | byte`
abbrev pub push_byte : ℕ → ℕ → ℕ
push_byte x byte = bit_or (shl 32 x 8) byte

abbrev pub fold_bytes : ℕ → List ℕ → ℕ
fold_bytes x [] = x
fold_bytes x (byte ∷ bytes) = fold_bytes (push_byte x byte) bytes

from_be_le : (bs : List ℕ) (d : ℕ) → d ≤ from_be d bs
from_be_le [] d = omega arith
from_be_le (b ∷ bs) d = omega (arith, from_be_le bs (d * 256 + b))

-- The fold does not overflow as long as the number fits.
pub fold_bytes-from_be :
    (bs : List ℕ) (d : ℕ) → All IsByte bs → from_be d bs < 2 ^ 32 → fold_bytes d bs ≡ from_be d bs
fold_bytes-from_be [] d o h = refl
fold_bytes-from_be (b ∷ bs) d (hb, o) h =
    let small : d * 256 < 2 ^ 32 = omega (arith, from_be_le bs (d * 256 + b)) in
    let e : bit_or (d * 2 ^ 8 % 2 ^ 32) b ≡ d * 256 + b =
      ap (λ (t : ℕ). bit_or t b) (mod-eq_of_lt small) ∙ bit_or_disjoint 8 d b hb in
    rw e (fold_bytes-from_be bs (d * 256 + b) o h)
