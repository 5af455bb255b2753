-- ===== src/Woff2/Packed.antt =====
-- src/woff2.rs, `PackedU16` (255UInt16): a number of 16 bits in one to three bytes.
use allsorts.Base.{ℕ, ◌+◌, ◌-◌, ◌*◌, ◌%◌, ◌^◌, ◌≤◌, ◌<◌, ◌≡◌, subst, arith}
use allsorts.Base.{
  List, [], ◌∷◌, ◌++◌, ltb, ◌==◌, if◌then◌else◌, length, Bool-cases, inl, inr, false, ltb→lt,
}
use allsorts.Binary.Read.{
  Reader, ReadCtxt, IsValid, remaining, advance, pure, ◌>>=◌, read_u8, read_u16be,
}
use allsorts.Binary.Read.Remaining.{Reads, Reads->>=, Reads-map}
use allsorts.Binary.Read.Values.{be_value}
use allsorts.Binary.Read.Fixed.{Fixed-Reads, read_u8-Fixed, read_u16be-Fixed}
use allsorts.Binary.Read.Safety.{IsSafe, IsSafe->>=, IsSafe-pure, Fixed-IsSafe}
use allsorts.Binary.Write.{be_bytes}
use allsorts.Error.{ok}

abbrev pub lowest_ucode : ℕ
lowest_ucode = 253

-- The sums of 16 bits do not wrap: a byte and 506 at most.
unfoldable pub packed_code : ℕ → Reader ℕ
packed_code code =
    if code == 253
    then read_u16be
    else if code == 254
    then read_u8 >>= (λ value. pure ((value + lowest_ucode * 2) % 2 ^ 16))
    else if code == 255
    then read_u8 >>= (λ value. pure ((value + lowest_ucode) % 2 ^ 16))
    else pure code

unfoldable pub read_packed_u16 : Reader ℕ
unfolding packed_code
read_packed_u16 = read_u8 >>= packed_code

-- The shortest encoding of a number, by the WOFF2 specification.
abbrev pub packed_bytes : ℕ → List ℕ
packed_bytes x =
    if ltb x 253
    then x ∷ []
    else if ltb x 509
    then 255 ∷ (x - 253) ∷ []
    else if ltb x 762
    then 254 ∷ (x - 506) ∷ []
    else 253 ∷ be_bytes 2 x

not_below : (x n : ℕ) → ltb x n ≡ false → n ≤ x
not_below x n h = ground arith

byte_Reads : (b : ℕ) → Reads read_u8 (b ∷ []) b
byte_Reads b =
    let e : 0 * 256 + b ≡ b = omega arith in
    subst (λ x. Reads read_u8 (b ∷ []) x) e (Fixed-Reads read_u8 be_value (b ∷ []) read_u8-Fixed)

code_Reads :
    (code : ℕ) (bs : List ℕ) (x : ℕ)
    → Reads (packed_code code) bs x
    → Reads read_packed_u16 (code ∷ bs) x
unfolding read_packed_u16
code_Reads code bs x h = Reads->>= read_u8 packed_code (code ∷ []) bs code x (byte_Reads code) h

plain_Reads : (x : ℕ) → x < 253 → Reads (packed_code x) [] x
unfolding packed_code
plain_Reads x h c rest v e = ground arith

-- A code whose byte is an offset from `base`.
offset_Reads :
    (base x : ℕ)
    → base ≤ x
    → x < 2 ^ 16
    → Reads (read_u8 >>= λ value. pure ((value + base) % 2 ^ 16)) ((x - base) ∷ []) x
offset_Reads base x h k =
    let e : (x - base + base) % 2 ^ 16 ≡ x = omega arith in
    subst (λ y. Reads (read_u8 >>= λ value. pure ((value + base) % 2 ^ 16)) ((x - base) ∷ []) y) e
      (Reads-map read_u8 (λ value. (value + base) % 2 ^ 16) ((x - base) ∷ []) (x - base)
        (byte_Reads (x - base)))

word_Reads : (x : ℕ) → x < 2 ^ 16 → Reads read_u16be (be_bytes 2 x) x
word_Reads x h =
    let e : be_value (be_bytes 2 x) ≡ x = omega arith in
    subst (λ y. Reads read_u16be (be_bytes 2 x) y) e
      (Fixed-Reads read_u16be be_value (be_bytes 2 x) read_u16be-Fixed)

packed_Reads : (x : ℕ) → x < 2 ^ 16 → Reads read_packed_u16 (packed_bytes x) x
unfolding packed_code
packed_Reads x h = elim (Bool-cases (ltb x 253)) [
  | inl a ↦ rw a (code_Reads x [] x (plain_Reads x (ltb→lt x 253 a)))
  | inr a ↦ rw a (elim (Bool-cases (ltb x 509)) [
    | inl b ↦ rw b (code_Reads 255 ((x - 253) ∷ []) x (offset_Reads 253 x (not_below x 253 a) h))
    | inr b ↦ rw b (elim (Bool-cases (ltb x 762)) [
      | inl d ↦ rw d (
          code_Reads 254 ((x - 506) ∷ []) x
            (offset_Reads 506 x (omega (arith, not_below x 509 b)) h))
      | inr d ↦ rw d (code_Reads 253 (be_bytes 2 x) x (word_Reads x h))
    ])
  ])
]

-- On a valid context that begins with the shortest 255UInt16 encoding of a number below 2 ^ 16,
-- `read_packed_u16` gives the number and stops behind the encoding.
pub read_packed_u16-packed_bytes :
    (x : ℕ) (c : ReadCtxt) (rest : List ℕ)
    → x < 2 ^ 16
    → IsValid c
    → remaining c ≡ packed_bytes x ++ rest
    → read_packed_u16 c ≡ ok (x, advance c (length (packed_bytes x)))
read_packed_u16-packed_bytes x c rest h v e = packed_Reads x h c rest v e

packed_code-IsSafe : (code : ℕ) → IsSafe (packed_code code)
unfolding packed_code
packed_code-IsSafe code = elim (Bool-cases (code == 253)) [
  | inl a ↦ rw a (Fixed-IsSafe read_u16be 2 be_value read_u16be-Fixed)
  | inr a ↦ rw a (elim (Bool-cases (code == 254)) [
    | inl b ↦ rw b (byte_plus (lowest_ucode * 2))
    | inr b ↦ rw b (elim (Bool-cases (code == 255)) [
      | inl d ↦ rw d (byte_plus lowest_ucode)
      | inr d ↦ rw d (IsSafe-pure code)
    ])
  ])
]
  where
    byte_plus : (base : ℕ) → IsSafe (read_u8 >>= λ value. pure ((value + base) % 2 ^ 16))
    byte_plus base =
        IsSafe->>= read_u8 (λ value. pure ((value + base) % 2 ^ 16))
          (Fixed-IsSafe read_u8 1 be_value read_u8-Fixed)
          (λ value. IsSafe-pure ((value + base) % 2 ^ 16))

pub read_packed_u16-IsSafe : IsSafe read_packed_u16
unfolding read_packed_u16
read_packed_u16-IsSafe =
    IsSafe->>= read_u8 packed_code (Fixed-IsSafe read_u8 1 be_value read_u8-Fixed)
      packed_code-IsSafe
