-- ===== src/Woff2/Base128/Digits.antt =====
-- Numbers as groups of seven bits, most significant first.
use allsorts.Base.{ℕ, zero, suc, ◌+◌, ◌*◌, ◌/◌, ◌%◌, ◌^◌, ◌≤◌, ◌<◌, ◌≡◌, refl}
use allsorts.Base.{
  List, [], ◌∷◌, arith, length, All, ltb, if◌then◌else◌, ◌⊎◌, inl, inr, false, Bool-cases, ltb→lt,
}
use native.Mathlib.Nat.{pow-suc}

abbrev pub from_128 : ℕ → List ℕ → ℕ
from_128 acc [] = acc
from_128 acc (d ∷ ds) = from_128 (acc * 128 + d) ds

-- The bytes of digits: the top bit says that more follow.
abbrev pub digit_bytes : List ℕ → List ℕ
digit_bytes [] = []
digit_bytes (d ∷ []) = d ∷ []
digit_bytes (d ∷ e ∷ ds) = (d + 128) ∷ digit_bytes (e ∷ ds)

-- A lone digit, or digits of which the first is not zero.
abbrev pub IsMinimal : List ℕ → Type 0
IsMinimal [] = ⊥
IsMinimal (d ∷ []) = Unit {0}
IsMinimal (d ∷ e ∷ ds) = 0 < d

-- The digits of `v` in front of `tail`, on fuel.
unfoldable pub to_digits : ℕ → ℕ → List ℕ → List ℕ
to_digits zero v tail = v ∷ tail
to_digits (suc k) v tail =
    let rest = to_digits k (v / 128) (v % 128 ∷ tail) in if ltb v 128 then v ∷ tail else rest

abbrev pub digits_of : ℕ → List ℕ
digits_of v = to_digits 4 v []

pub from_128-ge : (acc : ℕ) (ds : List ℕ) → acc ≤ from_128 acc ds
from_128-ge acc [] = omega arith
from_128-ge acc (d ∷ ds) = omega (arith, from_128-ge (acc * 128 + d) ds)

from_128-to_digits : (k v : ℕ) (tail : List ℕ) → from_128 0 (to_digits k v tail) ≡ from_128 v tail
unfolding to_digits
from_128-to_digits zero v tail = let e : 0 * 128 + v ≡ v = omega arith in rw (e, from_128)
from_128-to_digits (suc k) v tail = ground (arith, from_128-to_digits k (v / 128) (v % 128 ∷ tail))

pub from_128-digits_of : (v : ℕ) → from_128 0 (digits_of v) ≡ v
from_128-digits_of v = from_128-to_digits 4 v []

positive : (v : ℕ) → ltb v 128 ≡ false → 0 < v / 128
positive v h = ground arith

abbrev pub Shape : List ℕ → ℕ → Type 0
Shape ds n = All (λ d. d < 128) ds × IsMinimal ds × (length ds ≤ n)

last_Shape :
    (v n : ℕ) (tail : List ℕ)
    → v < 128
    → All (λ d. d < 128) tail
    → (length tail ≡ 0) ⊎ (0 < v)
    → length tail + 1 ≤ n
    → Shape (v ∷ tail) n
last_Shape v n [] h t lead k = ((h, tt), tt, omega arith)
last_Shape v n (d ∷ tail) h t lead k = ((h, t), omega arith, omega arith)

-- Digits below 128 with no leading zero; `suc k` groups are enough for `v`.
pub to_digits-Shape :
    (k v : ℕ) (tail : List ℕ)
    → v < 128 ^ suc k
    → All (λ d. d < 128) tail
    → (length tail ≡ 0) ⊎ (0 < v)
    → Shape (to_digits k v tail) (length tail + suc k)
unfolding to_digits
to_digits-Shape zero v tail h t lead =
    last_Shape v (length tail + 1) tail (omega arith) t lead (omega arith)
to_digits-Shape (suc k) v tail h t lead = elim (Bool-cases (ltb v 128)) [
  | inl small ↦
      rw small
        (last_Shape v (length tail + suc (suc k)) tail (ltb→lt v 128 small) t lead (omega arith))
  | inr big ↦ rw big (
      let (a, b, c) =
        to_digits-Shape k (v / 128) (v % 128 ∷ tail) (omega (arith, pow-suc 128 (suc k), h))
          (omega arith, t) (inr (positive v big)) in
      (a, b, omega (arith, c)))
]

pub digits_of-Shape : (v : ℕ) → v < 2 ^ 32 → Shape (digits_of v) 5
digits_of-Shape v h = to_digits-Shape 4 v [] (omega arith) tt (inl refl)
