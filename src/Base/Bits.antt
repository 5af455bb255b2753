-- ===== src/Base/Bits.antt =====
-- `|` of disjoint fields as a sum at every width, and the masks that are read off a byte.
use Prim.Native.Nat.{
  ℕ, zero, suc, ◌+◌, ◌*◌, ◌/◌, ◌%◌, ◌^◌, ◌≤◌, ◌<◌, max, min, bit_and, bit_or, digits,
  bit_or-bitwise, bit_and-bitwise, ◌-◌,
}
use mathlib.Core.Path.{◌≡◌, refl, sym, ap, subst, ◌∙◌}
use mathlib.Core.Logic.{◌⊎◌, inl, inr}
use mathlib.Core.Bool.{Bool, true, false, ◌&&◌}
use native.Mathlib.Nat.{pow-suc, one-le-pow}
use native.Mathlib.Omega.{arith}
use allsorts.Base.Tests.{◌==◌, ==_iff}

-- The digits of a bit operation do not depend on the fuel once it covers the first argument.
module _ (tail : ℕ → ℕ) (join : ℕ → ℕ → ℕ) where
  fuel_free : (x y n m : ℕ) → x ≤ n → x ≤ m → digits tail join n x y ≡ digits tail join m x y
  fuel_free zero y zero zero h k = refl
  fuel_free zero y zero (suc m) h k = refl
  fuel_free zero y (suc n) zero h k = refl
  fuel_free zero y (suc n) (suc m) h k = refl
  fuel_free (suc x) y zero m h k = absurd (omega arith)
  fuel_free (suc x) y (suc n) zero h k = absurd (omega arith)
  fuel_free (suc x) y (suc n) (suc m) h k =
      ap (λ (t : ℕ). t * 2 + join (suc x % 2) (y % 2))
        (fuel_free (suc x / 2) (y / 2) n m (omega arith) (omega arith))

-- `|` by the halves and the last digits.
pub bit_or_step : (x y : ℕ) → bit_or x y ≡ bit_or (x / 2) (y / 2) * 2 + max (x % 2) (y % 2)
bit_or_step zero y = omega (arith, bit_or-bitwise 0 y, bit_or-bitwise 0 (y / 2))
bit_or_step (suc x) y =
    bit_or-bitwise (suc x) y
    ∙ ap (λ (t : ℕ). t * 2 + max (suc x % 2) (y % 2))
        (fuel_free (λ d. d) max (suc x / 2) (y / 2) x (suc x / 2) (omega arith) (omega arith)
          ∙ sym (bit_or-bitwise (suc x / 2) (y / 2)))

or_zero_below : (x bound : ℕ) → x ≤ bound → bit_or x 0 ≡ x
or_zero_below zero bound h = refl
or_zero_below (suc x) zero h = absurd (omega arith)
or_zero_below (suc x) (suc bound) h =
    let half = or_zero_below (suc x / 2) bound (omega arith) in
    omega (arith, half, bit_or_step (suc x) 0)

bit_or-zero : (x : ℕ) → bit_or x 0 ≡ x
bit_or-zero x = or_zero_below x x (omega arith)

double_power : (q k : ℕ) → q * 2 ^ suc k ≡ 2 * (q * 2 ^ k)
double_power q k = omega (arith, ap (λ (t : ℕ). q * t) (pow-suc 2 k))

-- `(q << k) | r` is a sum where `r` fits `k` bits.
pub bit_or_disjoint : (k q r : ℕ) → r < 2 ^ k → bit_or (q * 2 ^ k) r ≡ q * 2 ^ k + r
bit_or_disjoint zero q r fits = ground (arith, bit_or-zero q)
bit_or_disjoint (suc k) q r fits = ground (
  arith,
  bit_or_step (q * 2 ^ suc k) r,
  double_power q k,
  bit_or_disjoint k q (r / 2) (omega (arith, pow-suc 2 k)),
)

-- `&` by the halves and the last digits.
pub bit_and_step : (x y : ℕ) → bit_and x y ≡ bit_and (x / 2) (y / 2) * 2 + min (x % 2) (y % 2)
bit_and_step zero y = omega (arith, bit_and-bitwise 0 y, bit_and-bitwise 0 (y / 2))
bit_and_step (suc x) y =
    bit_and-bitwise (suc x) y
    ∙ ap (λ (t : ℕ). t * 2 + min (suc x % 2) (y % 2))
        (fuel_free (λ d. zero) min (suc x / 2) (y / 2) x (suc x / 2) (omega arith) (omega arith)
          ∙ sym (bit_and-bitwise (suc x / 2) (y / 2)))

and_zero_below : (x bound : ℕ) → x ≤ bound → bit_and x 0 ≡ 0
and_zero_below zero bound h = refl
and_zero_below (suc x) zero h = absurd (omega arith)
and_zero_below (suc x) (suc bound) h =
    let half = and_zero_below (suc x / 2) bound (omega arith) in
    omega (arith, half, bit_and_step (suc x) 0)

pub bit_and-zero : (x : ℕ) → bit_and x 0 ≡ 0
bit_and-zero x = and_zero_below x x (omega arith)

pub bit_and-one : (a : ℕ) → bit_and a 1 ≡ a % 2
bit_and-one a = omega (arith, bit_and_step a 1, bit_and-zero (a / 2))

bit_and_fields : (k q r : ℕ) → r < 2 ^ k → bit_and (q * 2 ^ k + r) (2 ^ k - 1) ≡ r
bit_and_fields zero q r fits = rw bit_and-zero (omega arith)
bit_and_fields (suc k) q r fits = ground (
  arith,
  bit_and_step (q * 2 ^ suc k + r) (2 ^ suc k - 1),
  double_power q k,
  pow-suc 2 k,
  bit_and_fields k q (r / 2) (omega arith),
)

-- A mask of `k` low bits is the remainder by `2 ^ k`.
pub bit_and_low : (k a : ℕ) → bit_and a (2 ^ k - 1) ≡ a % 2 ^ k
bit_and_low k a = ground (arith, one-le-pow k 2, bit_and_fields k (a / 2 ^ k) (a % 2 ^ k))

-- A mask that is shifted left by `k` bits reads the bits from `k` on.
bit_and_high : (k q r m : ℕ) → r < 2 ^ k → bit_and (q * 2 ^ k + r) (m * 2 ^ k) ≡ bit_and q m * 2 ^ k
bit_and_high zero q r m fits =
    let e : q * 2 ^ 0 + r ≡ q = omega arith in
    let f : m * 2 ^ 0 ≡ m = omega arith in rw (e, f) (omega arith)
bit_and_high (suc k) q r m fits = ground (
  arith,
  bit_and_step (q * 2 ^ suc k + r) (m * 2 ^ suc k),
  double_power q k,
  double_power m k,
  double_power (bit_and q m) k,
  pow-suc 2 k,
  bit_and_high k q (r / 2) m (omega arith),
)

pub bit_and_shifted : (k a m : ℕ) → bit_and a (m * 2 ^ k) ≡ bit_and (a / 2 ^ k) m * 2 ^ k
bit_and_shifted k a m = ground (arith, one-le-pow k 2, bit_and_high k (a / 2 ^ k) (a % 2 ^ k) m)

-- The seven high bits of a word of 32 bits.
pub bit_and_high7 : (a : ℕ) → bit_and a 0xfe000000 ≡ a / 2 ^ 25 % 128 * 2 ^ 25
bit_and_high7 a = bit_and_shifted 25 a 127 ∙ ap (λ (t : ℕ). t * 2 ^ 25) (bit_and_low 7 (a / 2 ^ 25))

-- A test of every value below a bound, by evaluation.
unfoldable pub every_below : (ℕ → Bool) → ℕ → Bool
every_below test zero = true
every_below test (suc bound) = every_below test bound && test bound

conjuncts : (p q : Bool) → (p && q) ≡ true → (p ≡ true) × (q ≡ true)
conjuncts true q h = (refl, h)
conjuncts false q h = cc

pub every_below-lt :
    (test : ℕ → Bool) (bound : ℕ)
    → every_below test bound ≡ true
    → (x : ℕ) → x < bound
    → test x ≡ true
unfolding every_below
every_below-lt test zero h x lt = absurd (omega arith)
every_below-lt test (suc bound) h x lt =
    let (rest, last) = conjuncts (every_below test bound) (test bound) h in
    elim (compare_below x bound lt) [
      | inl e ↦ subst (λ y. test y ≡ true) (sym e) last
      | inr below ↦ every_below-lt test bound rest x below
    ]
  where
    compare_below : (x bound : ℕ) → x < suc bound → (x ≡ bound) ⊎ (x < bound)
    compare_below x bound h = omega arith

-- Two functions that agree below a bound.
pub agree_below :
    (n : ℕ) (f g : ℕ → ℕ) → every_below (λ x. f x == g x) n ≡ true → (x : ℕ) → x < n → f x ≡ g x
agree_below n f g h x lt = (==_iff (f x) (g x)).0 (every_below-lt (λ y. f y == g y) n h x lt)

pub bit_and_low7 : (b : ℕ) → b < 256 → bit_and b 0x7f ≡ b % 128
unfolding every_below
bit_and_low7 = agree_below 256 (λ b. bit_and b 0x7f) (λ b. b % 128) refl

pub bit_and_top : (b : ℕ) → b < 256 → bit_and b 0x80 ≡ b / 128 * 128
unfolding every_below
bit_and_top = agree_below 256 (λ b. bit_and b 0x80) (λ b. b / 128 * 128) refl

pub bit_and_low6 : (b : ℕ) → b < 256 → bit_and b 0x3f ≡ b % 64
unfolding every_below
bit_and_low6 = agree_below 256 (λ b. bit_and b 0x3f) (λ b. b % 64) refl

pub bit_and_high2 : (b : ℕ) → b < 256 → bit_and b 0xc0 ≡ b / 64 * 64
unfolding every_below
bit_and_high2 = agree_below 256 (λ b. bit_and b 0xc0) (λ b. b / 64 * 64) refl
