-- ===== src/Binary/Read/Fixed.antt =====
-- The checked reads of `ReadCtxt` on every input, and what they read from a run of bytes.
use allsorts.Base.{ℕ, ◌+◌, ◌*◌, ◌^◌, ◌<◌, ◌≡◌, sym, ap, ◌∙◌, List, arith}
use allsorts.Base.Int.{ℤ}
use allsorts.Base.{leb, if◌then◌else◌, bit_or, length, take, drop, All, le→leb, take-append-drop}
use allsorts.Base.{take-append, length-take, length-drop, All-take, All-drop}
use allsorts.Base.Bits.{bit_or_disjoint}
use allsorts.Binary.Scope.{offset_length, window}
use allsorts.Binary.Read.{
  Reader, ReadCtxt, IsValid, IsByte, remaining, advance, signed, shl, read_unchecked_i8,
  read_unchecked_i16be, read_unchecked_u32be, read_unchecked_i32be, read_unchecked_u64be,
  read_unchecked_i64be, read_unchecked_u8, read_unchecked_u16be, read_u8, read_i8, read_u16be,
  read_i16be, read_u32be, read_i32be, read_u64be, read_i64be, read_scope, read_slice,
}
use allsorts.Binary.Read.Remaining.{Reads, front_fits, length-remaining}
use allsorts.Binary.Read.Values.{
  be_value, be_value-lt, be_value-append, Exact, Fixed, checked-Fixed, Exact-map, Exact->>=,
  Exact-value, read_unchecked_u8-Exact, read_unchecked_u16be-Exact, read_unchecked_u32be-Exact,
}
use allsorts.Error.{ok, err, bad_eof}

-- Big-endian two's complement at a width of `w` bits.
abbrev pub signed_value : ℕ → List ℕ → ℤ
signed_value w bs = signed w (be_value bs)

pub read_unchecked_i8-Exact : Exact read_unchecked_i8 1 (signed_value 8)
unfolding read_unchecked_i8
read_unchecked_i8-Exact = Exact-map read_unchecked_u8 1 be_value (signed 8) read_unchecked_u8-Exact

pub read_unchecked_i16be-Exact : Exact read_unchecked_i16be 2 (signed_value 16)
unfolding read_unchecked_i16be
read_unchecked_i16be-Exact =
    Exact-map read_unchecked_u16be 2 be_value (signed 16) read_unchecked_u16be-Exact

pub read_unchecked_i32be-Exact : Exact read_unchecked_i32be 4 (signed_value 32)
unfolding read_unchecked_i32be
read_unchecked_i32be-Exact =
    Exact-map read_unchecked_u32be 4 be_value (signed 32) read_unchecked_u32be-Exact

-- The two halves of a 64-bit value.
halves_value :
    (bs : List ℕ)
    → All IsByte bs
    → length bs ≡ 8
    → bit_or (shl 64 (be_value (take 4 bs)) 32) (be_value (drop 4 bs)) ≡ be_value bs
halves_value bs h n =
    ground
      (arith, bit_or_disjoint 32 (be_value (take 4 bs)) (be_value (drop 4 bs)), high, low, whole)
  where
    high : be_value (take 4 bs) < 2 ^ 32
    high =
        let e : length (take 4 bs) ≡ 4 = omega (arith, length-take 4 bs) in
        rw e at (be_value-lt (take 4 bs) (All-take IsByte 4 bs h))

    four : length (drop 4 bs) ≡ 4
    four = omega (arith, length-drop 4 bs)

    low : be_value (drop 4 bs) < 2 ^ 32
    low = rw four at (be_value-lt (drop 4 bs) (All-drop IsByte 4 bs h))

    whole : be_value bs ≡ be_value (take 4 bs) * 2 ^ 32 + be_value (drop 4 bs)
    whole =
        ap be_value (sym (take-append-drop 4 bs))
        ∙ be_value-append (take 4 bs) (drop 4 bs)
        ∙ ap (λ k. be_value (take 4 bs) * 256 ^ k + be_value (drop 4 bs)) four

pub read_unchecked_u64be-Exact : Exact read_unchecked_u64be 8 be_value
unfolding read_unchecked_u64be
read_unchecked_u64be-Exact = Exact-value read_unchecked_u64be 8 _ be_value halves_value (
    Exact->>= read_unchecked_u32be read_unchecked_u32be (λ hi lo. bit_or (shl 64 hi 32) lo) 4 4
      be_value be_value read_unchecked_u32be-Exact read_unchecked_u32be-Exact)

pub read_unchecked_i64be-Exact : Exact read_unchecked_i64be 8 (signed_value 64)
unfolding read_unchecked_i64be
read_unchecked_i64be-Exact =
    Exact-map read_unchecked_u64be 8 be_value (signed 64) read_unchecked_u64be-Exact

pub read_u8-Fixed : Fixed read_u8 1 be_value
unfolding read_u8
read_u8-Fixed = checked-Fixed read_unchecked_u8 1 be_value read_unchecked_u8-Exact

pub read_i8-Fixed : Fixed read_i8 1 (signed_value 8)
unfolding read_i8
read_i8-Fixed = checked-Fixed read_unchecked_i8 1 (signed_value 8) read_unchecked_i8-Exact

pub read_u16be-Fixed : Fixed read_u16be 2 be_value
unfolding read_u16be
read_u16be-Fixed = checked-Fixed read_unchecked_u16be 2 be_value read_unchecked_u16be-Exact

pub read_i16be-Fixed : Fixed read_i16be 2 (signed_value 16)
unfolding read_i16be
read_i16be-Fixed = checked-Fixed read_unchecked_i16be 2 (signed_value 16) read_unchecked_i16be-Exact

pub read_u32be-Fixed : Fixed read_u32be 4 be_value
unfolding read_u32be
read_u32be-Fixed = checked-Fixed read_unchecked_u32be 4 be_value read_unchecked_u32be-Exact

pub read_i32be-Fixed : Fixed read_i32be 4 (signed_value 32)
unfolding read_i32be
read_i32be-Fixed = checked-Fixed read_unchecked_i32be 4 (signed_value 32) read_unchecked_i32be-Exact

pub read_u64be-Fixed : Fixed read_u64be 8 be_value
unfolding read_u64be
read_u64be-Fixed = checked-Fixed read_unchecked_u64be 8 be_value read_unchecked_u64be-Exact

pub read_i64be-Fixed : Fixed read_i64be 8 (signed_value 64)
unfolding read_i64be
read_i64be-Fixed = checked-Fixed read_unchecked_i64be 8 (signed_value 64) read_unchecked_i64be-Exact

-- On a run of `size` bytes a fixed-size read gives their value.
pub Fixed-Reads :
    {A : Type 0} (m : Reader A) (value : List ℕ → A) (bs : List ℕ)
    → Fixed m (length bs) value
    → Reads m bs (value bs)
Fixed-Reads m value bs h c rest v e =
    h c v
    ∙ rw (le→leb (length bs) (length (remaining c)) (front_fits c bs rest e)) (
        ap (λ xs. ok (value xs, advance c (length bs)))
          (ap (take (length bs)) e ∙ take-append bs rest))

-- Behind its cursor, `read_scope` gives the next `len` bytes, or reports the end of the data.
pub read_slice-Fixed : (len : ℕ) → Fixed (read_slice len) len (λ bs. bs)
unfolding read_slice read_scope offset_length
read_slice-Fixed len c v = ground (arith, length-remaining c v)

-- `read_scope` on every input.
pub read_scope_lem :
    (len : ℕ) (c : ReadCtxt)
    → IsValid c
    → read_scope len c ≡ (
        if leb len (length (remaining c))
        then ok (window c.scope c.offset len, advance c len)
        else err bad_eof)
unfolding read_scope offset_length
read_scope_lem len c v = ground (arith, length-remaining c v)
