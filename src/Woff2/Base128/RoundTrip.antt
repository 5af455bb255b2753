-- ===== src/Woff2/Base128/RoundTrip.antt =====
-- src/woff2.rs: the loop of `U32Base128` on digits of seven bits.
use allsorts.Base.{ℕ, zero, suc, ◌+◌, ◌-◌, ◌*◌, ◌^◌, ◌≤◌, ◌<◌, ◌≡◌, ◌≢◌, refl, sym, ap, ◌∙◌}
use allsorts.Base.{List, [], ◌∷◌, ◌++◌, arith, length, All, ltb, ◌⊎◌, inl, inr}
use allsorts.Base.{bit_or, Bool-cases, subst}
use allsorts.Base.Bits.{bit_and_low7, bit_and_top, bit_and_high7, bit_or_disjoint}
use allsorts.Binary.Read.{ReadCtxt, IsValid, remaining, advance, read_u8, shl}
use allsorts.Binary.Read.Remaining.{
  advance-IsValid, advance-advance, remaining_after, front_fits, remaining-octets,
}
use allsorts.Binary.Read.Values.{be_value}
use allsorts.Binary.Read.Fixed.{Fixed-Reads, read_u8-Fixed}
use allsorts.Woff2.Base128.{base128_loop, read_base128}
use allsorts.Woff2.Base128.Digits.{
  from_128, from_128-ge, digit_bytes, IsMinimal, digits_of, from_128-digits_of, digits_of-Shape,
}
use allsorts.Error.{ok}

-- One byte is read.
read_byte :
    (b : ℕ) (c : ReadCtxt) (rest : List ℕ)
    → IsValid c
    → remaining c ≡ b ∷ rest
    → read_u8 c ≡ ok (b, advance c 1)
read_byte b c rest v e =
    let k : 0 * 256 + b ≡ b = omega arith in
    subst (λ x. read_u8 c ≡ ok (x, advance c 1)) k
      (Fixed-Reads read_u8 be_value (b ∷ []) read_u8-Fixed c rest v e)

shift_in : (acc g : ℕ) → acc < 2 ^ 25 → g < 128 → bit_or (shl 32 acc 7) g ≡ acc * 128 + g
shift_in acc g h k = ground (arith, bit_or_disjoint 7 acc g)

-- The last byte of a number.
last_byte :
    (left i acc g : ℕ) (c : ReadCtxt) (rest : List ℕ)
    → g < 128
    → acc < 2 ^ 25
    → IsValid c
    → remaining c ≡ g ∷ rest
    → base128_loop (suc left) i acc c ≡ ok (acc * 128 + g, advance c 1)
unfolding base128_loop
last_byte left i acc g c rest h k v e = ground (
  arith,
  read_byte g c rest v e,
  bit_and_low7 g,
  bit_and_top g,
  bit_and_high7 acc,
  shift_in acc g,
)

-- A byte with the top bit set, that is not a leading zero.
inner_byte :
    (left i acc g : ℕ) (c : ReadCtxt) (rest : List ℕ)
    → g < 128
    → acc < 2 ^ 25
    → (i ≢ 0) ⊎ (0 < g)
    → IsValid c
    → remaining c ≡ (g + 128) ∷ rest
    → base128_loop (suc left) i acc c ≡ base128_loop left (i + 1) (acc * 128 + g) (advance c 1)
unfolding base128_loop
inner_byte left i acc g c rest h k lead v e = ground (
  arith,
  read_byte (g + 128) c rest v e,
  bit_and_low7 (g + 128),
  bit_and_top (g + 128),
  bit_and_high7 acc,
  shift_in acc g,
)

base128_loop-digits :
    (left i acc : ℕ) (ds : List ℕ) (c : ReadCtxt) (rest : List ℕ)
    → All (λ d. d < 128) ds
    → 0 < length ds
    → length ds ≤ left
    → (i ≢ 0) ⊎ IsMinimal ds
    → from_128 acc ds < 2 ^ 32
    → IsValid c
    → remaining c ≡ digit_bytes ds ++ rest
    → base128_loop left i acc c ≡ ok (from_128 acc ds, advance c (length ds))
base128_loop-digits left i acc [] c rest a n l lead f v e = absurd (omega arith)
base128_loop-digits zero i acc (d ∷ ds) c rest a n l lead f v e = absurd (omega arith)
base128_loop-digits (suc left) i acc (d ∷ []) c rest a n l lead f v e =
    last_byte left i acc d c rest a.0 (omega arith) v e
base128_loop-digits (suc left) i acc (d ∷ x ∷ ds) c rest a n l lead f v e =
    let tail : List ℕ = digit_bytes (x ∷ ds) ++ rest in
    let v' : IsValid (advance c 1) = advance-IsValid c 1 v (front_fits c ((d + 128) ∷ []) tail e) in
    inner_byte left i acc d c tail a.0 (omega (arith, from_128-ge (acc * 128 + d) (x ∷ ds))) lead v
      e
    ∙ base128_loop-digits left (i + 1) (acc * 128 + d) (x ∷ ds) (advance c 1) rest a.1 (omega arith)
        (omega arith) (inl (omega arith)) f v' (remaining_after c ((d + 128) ∷ []) tail e)
    ∙ ap (λ k. ok (from_128 acc (d ∷ x ∷ ds), k))
        (advance-advance c 1 (length (x ∷ ds)) ∙ ap (advance c) (omega arith))

minimal_nonempty : (ds : List ℕ) → IsMinimal ds → 0 < length ds
minimal_nonempty [] h = absurd h
minimal_nonempty (d ∷ ds) h = omega arith

-- On a valid context that begins with the base-128 digits of a number below 2 ^ 32, `read_base128`
-- gives the number and stops behind its digits.
pub read_base128-digits_of :
    (x : ℕ) (c : ReadCtxt) (rest : List ℕ)
    → x < 2 ^ 32
    → IsValid c
    → remaining c ≡ digit_bytes (digits_of x) ++ rest
    → read_base128 c ≡ ok (x, advance c (length (digits_of x)))
unfolding read_base128
read_base128-digits_of x c rest h v e =
    let (small, minimal, n) = digits_of-Shape x h in
    base128_loop-digits 5 0 0 (digits_of x) c rest small (minimal_nonempty (digits_of x) minimal) n
      (inr minimal) (rw (from_128-digits_of x) h) v e
    ∙ ap (λ y. ok (y, advance c (length (digits_of x)))) (from_128-digits_of x)

-- What the loop accepts from a state: digits in range, of which the first of a number is no zero.
record Accepted (left i acc : ℕ) (c : ReadCtxt) (x : ℕ) (c' : ReadCtxt) : Type 0 where
  digits : List ℕ
  small : All (λ d. d < 128) digits
  nonempty : 0 < length digits
  short : length digits ≤ left
  lead : (i ≢ 0) ⊎ IsMinimal digits
  value : x ≡ from_128 acc digits
  bounded : x < 2 ^ 32
  bytes : remaining c ≡ digit_bytes digits ++ remaining c'
  moved : c' ≡ advance c (length digits)

byte_cases : (b : ℕ) → b < 256 → (b < 128) ⊎ ((g : ℕ) × (g < 128) × (b ≡ g + 128))
byte_cases b h = elim (Bool-cases (ltb b 128)) [
  | inl small ↦ inl (ground arith)
  | inr big ↦ inr (b - 128, ground arith, ground arith)
]

last_Accepted :
    (left i acc x b : ℕ) (c c' : ReadCtxt) (r : List ℕ)
    → remaining c ≡ b ∷ r
    → b < 128
    → acc < 2 ^ 32
    → IsValid c
    → base128_loop (suc left) i acc c ≡ ok (x, c')
    → (acc < 2 ^ 25) × (x ≡ acc * 128 + b) × (c' ≡ advance c 1)
unfolding base128_loop
last_Accepted left i acc x b c c' r e small h v s =
    ground
      (arith, read_byte b c r v e, bit_and_low7 b, bit_and_top b, bit_and_high7 acc, shift_in acc b)

inner_Accepted :
    (left i acc x g : ℕ) (c c' : ReadCtxt) (r : List ℕ)
    → remaining c ≡ (g + 128) ∷ r
    → g < 128
    → acc < 2 ^ 32
    → IsValid c
    → base128_loop (suc left) i acc c ≡ ok (x, c')
    → (acc < 2 ^ 25)
      × ((i ≢ 0) ⊎ (0 < g))
      × (base128_loop left (i + 1) (acc * 128 + g) (advance c 1) ≡ ok (x, c'))
unfolding base128_loop
inner_Accepted left i acc x g c c' r e small h v s = ground (
  arith,
  read_byte (g + 128) c r v e,
  bit_and_low7 (g + 128),
  bit_and_top (g + 128),
  bit_and_high7 acc,
  shift_in acc g,
)

one_digit :
    (left i acc x b : ℕ) (c c' : ReadCtxt) (r : List ℕ)
    → remaining c ≡ b ∷ r
    → b < 128
    → (acc < 2 ^ 25) × (x ≡ acc * 128 + b) × (c' ≡ advance c 1)
    → Accepted (suc left) i acc c x c'
one_digit left i acc x b c c' r e small (h, value, moved) = record {
  digits = b ∷ [];
  small = (small, tt);
  nonempty = omega arith;
  short = omega arith;
  lead = inr tt;
  value = value;
  bounded = omega (arith, value);
  bytes = e ∙ ap (λ t. b ∷ t) (sym (ap remaining moved ∙ remaining_after c (b ∷ []) r e));
  moved = moved;
}

more_bytes :
    (g : ℕ) (ds : List ℕ) → 0 < length ds → digit_bytes (g ∷ ds) ≡ (g + 128) ∷ digit_bytes ds
more_bytes g [] h = absurd (omega arith)
more_bytes g (d ∷ ds) h = refl

lead_digit :
    (i g : ℕ) (ds : List ℕ) → 0 < length ds → (i ≢ 0) ⊎ (0 < g) → (i ≢ 0) ⊎ IsMinimal (g ∷ ds)
lead_digit i g [] h k = inr tt
lead_digit i g (d ∷ ds) h k = k

one_more :
    (left i acc x g : ℕ) (c c' : ReadCtxt) (r : List ℕ)
    → remaining c ≡ (g + 128) ∷ r
    → g < 128
    → (i ≢ 0) ⊎ (0 < g)
    → Accepted left (i + 1) (acc * 128 + g) (advance c 1) x c'
    → Accepted (suc left) i acc c x c'
one_more left i acc x g c c' r e small lead a = record {
  digits = g ∷ a.digits;
  small = (small, a.small);
  nonempty = omega arith;
  short = omega (arith, a.short);
  lead = lead_digit i g a.digits a.nonempty lead;
  value = a.value;
  bounded = a.bounded;
  bytes =
      e
      ∙ ap (λ t. (g + 128) ∷ t) (sym (remaining_after c ((g + 128) ∷ []) r e) ∙ a.bytes)
      ∙ ap (λ t. t ++ remaining c') (sym (more_bytes g a.digits a.nonempty));
  moved = a.moved ∙ advance-advance c 1 (length a.digits) ∙ ap (advance c) (omega arith);
}

no_byte :
    (left i acc x : ℕ) (c c' : ReadCtxt)
    → remaining c ≡ []
    → IsValid c
    → base128_loop (suc left) i acc c ≡ ok (x, c')
    → ⊥
unfolding base128_loop
no_byte left i acc x c c' e v s = cc (s, read_u8-Fixed c v, e)

base128_loop-Accepted :
    (left i acc x : ℕ) (c c' : ReadCtxt) (r : List ℕ)
    → remaining c ≡ r
    → acc < 2 ^ 32
    → IsValid c
    → base128_loop left i acc c ≡ ok (x, c')
    → Accepted left i acc c x c'
base128_loop-Accepted zero i acc x c c' r e h v s = unfold base128_loop in cc
base128_loop-Accepted (suc left) i acc x c c' [] e h v s = absurd (no_byte left i acc x c c' e v s)
base128_loop-Accepted (suc left) i acc x c c' (b ∷ r) e h v s =
    elim (byte_cases b (rw e at (remaining-octets c v)).0) [
      | inl small ↦
          one_digit left i acc x b c c' r e small
            (last_Accepted left i acc x b c c' r e small h v s)
      | inr (g, small, k) ↦
          let e' : remaining c ≡ (g + 128) ∷ r = e ∙ ap (λ t. t ∷ r) k in
          let (fits, lead, next) = inner_Accepted left i acc x g c c' r e' small h v s in
          one_more left i acc x g c c' r e' small lead (
            base128_loop-Accepted left (i + 1) (acc * 128 + g) x (advance c 1) c' r
              (remaining_after c ((g + 128) ∷ []) r e') (omega arith)
              (advance-IsValid c 1 v (front_fits c ((g + 128) ∷ []) r e')) next)
    ]

-- When `read_base128` succeeds on a valid context, what it has consumed is the bytes of at most
-- five digits of seven bits, the first of which is not zero unless it is the only one, and the
-- result is their value, below 2 ^ 32.
pub read_base128-IsMinimal :
    (x : ℕ) (c c' : ReadCtxt)
    → IsValid c
    → read_base128 c ≡ ok (x, c')
    → (ds : List ℕ) × All (λ d. d < 128) ds
      × IsMinimal ds
      × (length ds ≤ 5)
      × (x ≡ from_128 0 ds)
      × (x < 2 ^ 32)
      × (remaining c ≡ digit_bytes ds ++ remaining c')
unfolding read_base128
read_base128-IsMinimal x c c' v s =
    let a : Accepted 5 0 0 c x c' =
      base128_loop-Accepted 5 0 0 x c c' (remaining c) refl (omega arith) v s in
    (a.digits, a.small, first a.digits a.lead, a.short, a.value, a.bounded, a.bytes)
  where
    first : (ds : List ℕ) → (◌≢◌ {A = ℕ} 0 0) ⊎ IsMinimal ds → IsMinimal ds
    first ds (inl h) = absurd (h refl)
    first ds (inr m) = m
