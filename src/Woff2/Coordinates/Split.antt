-- ===== src/Woff2/Coordinates/Split.antt =====
-- The coordinates of a point, against bytes that its two offsets are split over.
use allsorts.Base.{
  ℕ, zero, suc, ◌+◌, ◌-◌, ◌*◌, ◌/◌, ◌%◌, ◌^◌, ◌<◌, ◌≤◌, bit_and, Option, none, ◌≡◌, ap, ap₂, ◌∙◌,
  arith,
}
use allsorts.Base.{Bool, some, get_elem?, if◌then◌else◌}
use native.Mathlib.Nat.{
  one-le-pow, pow-suc, mul-le-mul_right, pow-le-pow_right, mul-add-div_right, div-eq_of_lt,
  mod-eq_of_lt, mul-add-mod_self_right,
}
use allsorts.Base.Bits.{bit_and_low, bit_and_low7}
use allsorts.Base.Int.{ℤ, pos, sub_ℕ}
use allsorts.Binary.Read.Values.{be_value}
use allsorts.Binary.Write.{be_bytes}
use allsorts.Binary.Write.Values.{be_bytes-octets}
use allsorts.Binary.Bytes.{fold_bytes, fold_bytes-from_be}
use allsorts.Error.{ok, panic}
use allsorts.Woff2.Lut.{XyTriplet, coord_lut}
use allsorts.Woff2.Lut.Formula.{triplet_of, coord_lut-triplet_of}
use allsorts.Woff2.Coordinates.{
  shr32, sub_u8, mask32, coordinate, dx, dy, xy_triplet, decode_coordinates,
}

-- How the bits of a point are shared out: the bytes, the bits of x, those of y.
abbrev pub IsSplit : ℕ → ℕ → ℕ → Type 0
IsSplit n x y = (n * 8 ≡ x + y) × (x ≤ 16) × (y ≤ 16) × (n ≤ 4)

triplet_of-IsSplit :
    (i : ℕ) → IsSplit (triplet_of i).byte_count (triplet_of i).x_bits (triplet_of i).y_bits
triplet_of-IsSplit i = ground arith

-- The two parts of a number of `x + y` bits.
high_part : (x y a b : ℕ) → b < 2 ^ y → (a * 2 ^ y + b) / 2 ^ y ≡ a
high_part x y a b h =
    omega (arith, mul-add-div_right (one-le-pow y 2 (omega arith)) a b, div-eq_of_lt h)

low_part : (y a b : ℕ) → b < 2 ^ y → (a * 2 ^ y + b) % 2 ^ y ≡ b
low_part y a b h = mul-add-mod_self_right a (2 ^ y) b ∙ mod-eq_of_lt h

mask32_lem : (x : ℕ) → x ≤ 16 → mask32 x ≡ 2 ^ x - 1
mask32_lem x h =
    let m : x % 32 ≡ x = omega arith in
    rw m (omega (arith, one-le-pow x 2 (omega arith), pow-le-pow_right {n = 2} (omega arith) h))

part_x :
    (n x y a b : ℕ)
    → IsSplit n x y
    → a < 2 ^ x
    → b < 2 ^ y
    → bit_and (shr32 (a * 2 ^ y + b) (sub_u8 (n * 8 % 2 ^ 8) x)) (mask32 x) ≡ a
part_x n x y a b (e, hx, hy, hn) ha hb =
    let s : sub_u8 (n * 8 % 2 ^ 8) x % 32 ≡ y = omega arith in
    rw (s, mask32_lem x hx, high_part x y a b hb, bit_and_low x a) (mod-eq_of_lt ha)

part_y :
    (n x y a b : ℕ)
    → IsSplit n x y
    → b < 2 ^ y
    → bit_and (shr32 (a * 2 ^ y + b) (sub_u8 (sub_u8 (n * 8 % 2 ^ 8) x) y)) (mask32 y) ≡ b
part_y n x y a b (e, hx, hy, hn) hb =
    let s : sub_u8 (sub_u8 (n * 8 % 2 ^ 8) x) y % 32 ≡ 0 = omega arith in
    let one : (a * 2 ^ y + b) / 1 ≡ a * 2 ^ y + b = omega arith in
    rw (s, one, mask32_lem y hy, bit_and_low y (a * 2 ^ y + b)) (low_part y a b hb)

abbrev pub by_sign : Bool → ℕ → ℤ
by_sign is_negative n = if is_negative then sub_ℕ 0 n else pos n

coordinate_lem :
    (is_negative : Bool) (n : ℕ)
    → n < 2 ^ 15
    → coordinate is_negative (n % 2 ^ 32) ≡ by_sign is_negative n
coordinate_lem is_negative n h = ground arith

be_value-be_bytes : (n x : ℕ) → n ≤ 4 → x < 2 ^ (n * 8) → be_value (be_bytes n x) ≡ x
be_value-be_bytes zero x hn h = omega arith
be_value-be_bytes (suc zero) x hn h = omega arith
be_value-be_bytes (suc (suc zero)) x hn h = omega arith
be_value-be_bytes (suc (suc (suc zero))) x hn h = omega arith
be_value-be_bytes (suc (suc (suc (suc zero)))) x hn h = omega arith
be_value-be_bytes (suc (suc (suc (suc (suc n))))) x hn h = absurd (omega arith)

two_pow-add : (x y : ℕ) → 2 ^ (x + y) ≡ 2 ^ x * 2 ^ y
two_pow-add zero y = let e : 0 + y ≡ y = omega arith in rw e (omega arith)
two_pow-add (suc x) y =
    let e : suc x + y ≡ suc (x + y) = omega arith in
    rw (e, pow-suc 2 (x + y), pow-suc 2 x, two_pow-add x y) (grind arith)

whole_lt : (n x y a b : ℕ) → n * 8 ≡ x + y → a < 2 ^ x → b < 2 ^ y → a * 2 ^ y + b < 2 ^ (n * 8)
whole_lt n x y a b e ha hb = rw (e, two_pow-add x y) (grind (arith, mul-le-mul_right (2 ^ y) ha))

fold_bytes-be_bytes :
    (n x y a b : ℕ)
    → IsSplit n x y
    → a < 2 ^ x
    → b < 2 ^ y
    → fold_bytes 0 (be_bytes n (a * 2 ^ y + b)) ≡ a * 2 ^ y + b
fold_bytes-be_bytes n x y a b (e, hx, hy, hn) ha hb =
    let v = be_value-be_bytes n (a * 2 ^ y + b) hn (whole_lt n x y a b e ha hb) in
    let m : n * 8 ≤ 32 = omega arith in
    let small : be_value (be_bytes n (a * 2 ^ y + b)) < 2 ^ 32 =
      omega (arith, v, whole_lt n x y a b e ha hb, pow-le-pow_right {n = 2} (omega arith) m) in
    fold_bytes-from_be (be_bytes n (a * 2 ^ y + b)) 0 (be_bytes-octets n (a * 2 ^ y + b)) small ∙ v

-- A table row whose bits are shared out so gives back both coordinates.
dx_lem :
    (t : XyTriplet) (a b : ℕ)
    → IsSplit t.byte_count t.x_bits t.y_bits
    → a < 2 ^ t.x_bits
    → b < 2 ^ t.y_bits
    → a + t.delta_x < 2 ^ 15
    → dx t (a * 2 ^ t.y_bits + b) ≡ by_sign t.x_is_negative (a + t.delta_x)
unfolding dx
dx_lem t a b s ha hb h =
    rw (part_x t.byte_count t.x_bits t.y_bits a b s ha hb)
      (coordinate_lem t.x_is_negative (a + t.delta_x) h)

dy_lem :
    (t : XyTriplet) (a b : ℕ)
    → IsSplit t.byte_count t.x_bits t.y_bits
    → b < 2 ^ t.y_bits
    → b + t.delta_y < 2 ^ 15
    → dy t (a * 2 ^ t.y_bits + b) ≡ by_sign t.y_is_negative (b + t.delta_y)
unfolding dy
dy_lem t a b s hb h =
    rw (part_y t.byte_count t.x_bits t.y_bits a b s hb)
      (coordinate_lem t.y_is_negative (b + t.delta_y) h)

xy_triplet_lem : (flag : ℕ) → flag < 256 → xy_triplet flag ≡ ok (triplet_of (flag % 128))
unfolding xy_triplet
xy_triplet_lem flag h =
    let e : get_elem? coord_lut (bit_and flag 0x7f) ≡ some (triplet_of (flag % 128)) =
      ap (get_elem? coord_lut) (bit_and_low7 flag h)
      ∙ coord_lut-triplet_of (flag % 128) (omega arith) in
    ap (λ (o : Option XyTriplet). elim o [ none ↦ panic | some t ↦ ok t ]) e

-- For a flag byte whose table row has the formula's bits and deltas, and offsets `a` and `b` that
-- fit those bits and stay below 2 ^ 15 with the deltas added, `decode_coordinates` on the bytes
-- that hold `a` and `b` side by side gives the two sums with the signs of the row.
pub decode_coordinates-be_bytes :
    (flag a b : ℕ)
    → flag < 256
    → a < 2 ^ (triplet_of (flag % 128)).x_bits
    → b < 2 ^ (triplet_of (flag % 128)).y_bits
    → a + (triplet_of (flag % 128)).delta_x < 2 ^ 15
    → b + (triplet_of (flag % 128)).delta_y < 2 ^ 15
    → decode_coordinates flag (
        be_bytes
          (triplet_of (flag % 128)).byte_count
          (a * 2 ^ (triplet_of (flag % 128)).y_bits + b))
      ≡ ok (
        by_sign (triplet_of (flag % 128)).x_is_negative (a + (triplet_of (flag % 128)).delta_x),
        by_sign (triplet_of (flag % 128)).y_is_negative (b + (triplet_of (flag % 128)).delta_y),
      )
unfolding decode_coordinates
decode_coordinates-be_bytes flag a b hf ha hb hx hy =
    let t = triplet_of (flag % 128) in
    let s = triplet_of-IsSplit (flag % 128) in
    rw (xy_triplet_lem flag hf, fold_bytes-be_bytes t.byte_count t.x_bits t.y_bits a b s ha hb)
      (ap₂ (λ x y. ok (x, y)) (dx_lem t a b s ha hb hx) (dy_lem t a b s hb hy))
