-- ===== src/Binary/Read/Values.antt =====
-- The primitive reads against the big-endian values of the bytes that they stand at.
use allsorts.Base.{ℕ, ◌+◌, ◌*◌, ◌^◌, ◌≤◌, ◌<◌, ◌≡◌, refl, ap, ◌∙◌, List, [], ◌∷◌, ◌++◌, arith}
use allsorts.Base.{bit_or, length, take, drop, All, leb, if◌then◌else◌, All-take}
use allsorts.Base.{take-take, drop-take, length-take, length-drop}
use native.Mathlib.Nat.{pow-suc}
use allsorts.Base.Bits.{bit_or_disjoint}
use allsorts.Binary.Read.{
  ReadCtxt, Reader, IsByte, IsValid, remaining, advance, pure, ◌>>=◌, check_avail, checked, shl,
  read_unchecked_u8, read_unchecked_u16be, read_unchecked_u24be, read_unchecked_u32be,
}
use allsorts.Binary.Read.Remaining.{
  length-remaining, remaining-octets, remaining-advance, advance-IsValid, advance-advance,
  peek_unchecked_lem, check_avail_lem, bind_ok,
}
use allsorts.Error.{ok, err, bad_eof}

-- The number that bytes stand for, most significant first.
abbrev pub from_be : ℕ → List ℕ → ℕ
from_be acc [] = acc
from_be acc (b ∷ bs) = from_be (acc * 256 + b) bs

abbrev pub be_value : List ℕ → ℕ
be_value bs = from_be 0 bs

-- With `size` bytes at hand, `m` takes them and answers with `value` of them.
abbrev pub Exact : {A : Type 0} → Reader A → ℕ → (List ℕ → A) → Type 0
Exact m size value =
    (c : ReadCtxt)
    → IsValid c
    → size ≤ length (remaining c)
    → m c ≡ ok (value (take size (remaining c)), advance c size)

-- The same on every input: fewer bytes are the end of the data.
abbrev pub Fixed : {A : Type 0} → Reader A → ℕ → (List ℕ → A) → Type 0
Fixed m size value =
    (c : ReadCtxt)
    → IsValid c
    → m c ≡ (
        if leb size (length (remaining c))
        then ok (value (take size (remaining c)), advance c size)
        else err bad_eof)

pub checked-Fixed :
    {A : Type 0} (m : Reader A) (size : ℕ) (value : List ℕ → A)
    → Exact m size value
    → Fixed (checked size m) size value
unfolding check_avail
checked-Fixed m size value exact c v =
    ground (arith, length-remaining c v, exact c v, check_avail_lem c size v)

pub read_unchecked_u8-Exact : Exact read_unchecked_u8 1 be_value
unfolding read_unchecked_u8
read_unchecked_u8-Exact c v h = go (remaining c) refl h
  where
    go :
        (r : List ℕ)
        → remaining c ≡ r
        → 1 ≤ length r
        → read_unchecked_u8 c ≡ ok (be_value (take 1 r), advance c 1)
    go [] e h' = absurd (omega arith)
    go (b ∷ r) e h' = ground (arith, peek_unchecked_lem c (b ∷ r) 0 e)

two_bytes : (b0 b1 : ℕ) → b0 < 256 → b1 < 256 → bit_or (shl 16 b0 8) b1 ≡ b0 * 256 + b1
two_bytes b0 b1 h0 h1 = ground (arith, bit_or_disjoint 8 b0 b1)

pub read_unchecked_u16be-Exact : Exact read_unchecked_u16be 2 be_value
unfolding read_unchecked_u16be
read_unchecked_u16be-Exact c v h = go (remaining c) refl (remaining-octets c v) h
  where
    go :
        (r : List ℕ)
        → remaining c ≡ r
        → All IsByte r
        → 2 ≤ length r
        → read_unchecked_u16be c ≡ ok (be_value (take 2 r), advance c 2)
    go [] e o h' = absurd (omega arith)
    go (b0 ∷ []) e o h' = absurd (omega arith)
    go (b0 ∷ b1 ∷ r) e o h' =
        ground (arith, peek_unchecked_lem c _ 0 e, peek_unchecked_lem c _ 1 e, two_bytes b0 b1)

three_bytes :
    (b0 b1 b2 : ℕ)
    → b0 < 256
    → b1 < 256
    → b2 < 256
    → bit_or (bit_or (shl 32 b0 16) (shl 32 b1 8)) b2 ≡ (b0 * 256 + b1) * 256 + b2
three_bytes b0 b1 b2 h0 h1 h2 =
    ground (arith, bit_or_disjoint 16 b0 (b1 * 256), bit_or_disjoint 8 (b0 * 256 + b1) b2)

pub read_unchecked_u24be-Exact : Exact read_unchecked_u24be 3 be_value
unfolding read_unchecked_u24be
read_unchecked_u24be-Exact c v h = go (remaining c) refl (remaining-octets c v) h
  where
    go :
        (r : List ℕ)
        → remaining c ≡ r
        → All IsByte r
        → 3 ≤ length r
        → read_unchecked_u24be c ≡ ok (be_value (take 3 r), advance c 3)
    go [] e o h' = absurd (omega arith)
    go (b0 ∷ []) e o h' = absurd (omega arith)
    go (b0 ∷ b1 ∷ []) e o h' = absurd (omega arith)
    go (b0 ∷ b1 ∷ b2 ∷ r) e o h' = ground (
      arith,
      peek_unchecked_lem c _ 0 e,
      peek_unchecked_lem c _ 1 e,
      peek_unchecked_lem c _ 2 e,
      three_bytes b0 b1 b2,
    )

four_bytes :
    (b0 b1 b2 b3 : ℕ)
    → b0 < 256
    → b1 < 256
    → b2 < 256
    → b3 < 256
    → bit_or (bit_or (bit_or (shl 32 b0 24) (shl 32 b1 16)) (shl 32 b2 8)) b3
      ≡ ((b0 * 256 + b1) * 256 + b2) * 256 + b3
four_bytes b0 b1 b2 b3 h0 h1 h2 h3 = ground (
  arith,
  bit_or_disjoint 24 b0 (b1 * 65536),
  bit_or_disjoint 16 (b0 * 256 + b1) (b2 * 256),
  bit_or_disjoint 8 ((b0 * 256 + b1) * 256 + b2) b3,
)

pub read_unchecked_u32be-Exact : Exact read_unchecked_u32be 4 be_value
unfolding read_unchecked_u32be
read_unchecked_u32be-Exact c v h = go (remaining c) refl (remaining-octets c v) h
  where
    go :
        (r : List ℕ)
        → remaining c ≡ r
        → All IsByte r
        → 4 ≤ length r
        → read_unchecked_u32be c ≡ ok (be_value (take 4 r), advance c 4)
    go [] e o h' = absurd (omega arith)
    go (b0 ∷ []) e o h' = absurd (omega arith)
    go (b0 ∷ b1 ∷ []) e o h' = absurd (omega arith)
    go (b0 ∷ b1 ∷ b2 ∷ []) e o h' = absurd (omega arith)
    go (b0 ∷ b1 ∷ b2 ∷ b3 ∷ r) e o h' = ground (
      arith,
      peek_unchecked_lem c _ 0 e,
      peek_unchecked_lem c _ 1 e,
      peek_unchecked_lem c _ 2 e,
      peek_unchecked_lem c _ 3 e,
      four_bytes b0 b1 b2 b3,
    )

-- A read that is only converted keeps its size.
pub Exact-map :
    {A B : Type 0} (m : Reader A) (size : ℕ) (value : List ℕ → A) (f : A → B)
    → Exact m size value
    → Exact (m >>= λ a. pure (f a)) size (λ bs. f (value bs))
Exact-map m size value f h c v fits = bind_ok m (λ a. pure (f a)) c _ _ (h c v fits)

-- Two reads in sequence; what the second reads may depend on the first.
pub Exact-bind :
    {A B : Type 0} (m : Reader A) (k : A → Reader B) (s t : ℕ) (value : List ℕ → A)
    (value' : A → List ℕ → B)
    → Exact m s value
    → ((a : A) → Exact (k a) t (value' a))
    → Exact (m >>= k) (s + t) (λ bs. value' (value (take s bs)) (drop s bs))
Exact-bind m k s t value value' hm hk c v fits =
    bind_ok m k c _ _ (hm c v (omega arith))
    ∙ hk (value (take s r)) (advance c s) (advance-IsValid c s v (omega arith))
        (rw (remaining-advance c s) (omega (arith, length-drop s r)))
    ∙ rw
        (
          remaining-advance c s,
          advance-advance c s t,
          take-take s (s + t) r (omega arith),
          drop-take s t r,
        )
        refl
  where
    r : List ℕ
    r = remaining c

pub Exact->>= :
    {A B C : Type 0} (m : Reader A) (k : Reader B) (f : A → B → C) (s t : ℕ) (value : List ℕ → A)
    (value' : List ℕ → B)
    → Exact m s value
    → Exact k t value'
    → Exact
        (m >>= λ a. k >>= λ b. pure (f a b))
        (s + t)
        (λ bs. f (value (take s bs)) (value' (drop s bs)))
Exact->>= m k f s t value value' hm hk =
    Exact-bind m (λ a. k >>= λ b. pure (f a b)) s t value (λ a bs. f a (value' bs)) hm
      (λ a. Exact-map k t value' (f a) hk)

-- Another description of the same value.
pub Exact-value :
    {A : Type 0} (m : Reader A) (size : ℕ) (value value' : List ℕ → A)
    → ((bs : List ℕ) → All IsByte bs → length bs ≡ size → value bs ≡ value' bs)
    → Exact m size value
    → Exact m size value'
Exact-value m size value value' same h c v fits =
    h c v fits
    ∙ ap (λ a. ok (a, advance c size))
        (same (take size (remaining c)) (All-take IsByte size (remaining c) (remaining-octets c v))
          (omega (arith, length-take size (remaining c))))

from_be-split : (acc : ℕ) (bs : List ℕ) → from_be acc bs ≡ acc * 256 ^ length bs + be_value bs
from_be-split acc [] = omega arith
from_be-split acc (b ∷ bs) = omega (
  arith,
  from_be-split (acc * 256 + b) bs,
  from_be-split (0 * 256 + b) bs,
  ap (λ (t : ℕ). b * t) (pow-suc 256 (length bs)),
  ap (λ (t : ℕ). acc * t) (pow-suc 256 (length bs)),
)

pub be_value-lt : (bs : List ℕ) → All IsByte bs → be_value bs < 256 ^ length bs
be_value-lt [] h = omega arith
be_value-lt (b ∷ bs) h =
    grind (arith, from_be-split (0 * 256 + b) bs, be_value-lt bs h.1, pow-suc 256 (length bs))

-- A value of `a` bytes in front of one of `b` bytes.
pub be_value-append :
    (xs ys : List ℕ) → be_value (xs ++ ys) ≡ be_value xs * 256 ^ length ys + be_value ys
be_value-append xs ys = go 0 xs
  where
    go :
        (acc : ℕ) (zs : List ℕ)
        → from_be acc (zs ++ ys) ≡ from_be acc zs * 256 ^ length ys + be_value ys
    go acc [] = from_be-split acc ys
    go acc (z ∷ zs) = go (acc * 256 + z) zs
