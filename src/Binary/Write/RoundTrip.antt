-- ===== src/Binary/Write/RoundTrip.antt =====
-- The primitive writers and the primitive reads of the same types.
use allsorts.Base.{ℕ, ◌^◌, ◌<◌, ◌≡◌, refl, subst, List, ◌++◌}
use allsorts.Base.Int.{ℤ}
use allsorts.Binary.Read.{ReadCtxt, IsValid, remaining, advance, read_u32be, read_i16be, read_i64be}
use allsorts.Binary.Read.Remaining.{Reads}
use allsorts.Binary.Read.Values.{be_value}
use allsorts.Binary.Read.Fixed.{
  signed_value, Fixed-Reads, read_u32be-Fixed, read_i16be-Fixed, read_i64be-Fixed,
}
use allsorts.Binary.Write.{
  WriteBuffer, buffer_context, be_bytes, pattern_of, write_u32be, write_i16be, write_i64be,
}
use allsorts.Binary.Write.Values.{InRange, u32_value, signed16-pattern, signed64-pattern}
use allsorts.Error.{ok}

u32be_Reads : (x : ℕ) → x < 2 ^ 32 → Reads read_u32be (be_bytes 4 x) x
u32be_Reads x h =
    subst (λ y. Reads read_u32be (be_bytes 4 x) y) (u32_value x h)
      (Fixed-Reads read_u32be be_value (be_bytes 4 x) read_u32be-Fixed)

-- For a number below 2 ^ 32, `write_u32be` appends its four bytes to any buffer, and `read_u32be`
-- on a valid context that begins with those bytes gives the number and stops behind them.
pub read_u32be-write_u32be :
    (x : ℕ) (w : WriteBuffer) (c : ReadCtxt) (rest : List ℕ)
    → x < 2 ^ 32
    → IsValid c
    → remaining c ≡ be_bytes 4 x ++ rest
    → (write_u32be buffer_context x w ≡ ok (record { bytes = w.bytes ++ be_bytes 4 x }))
      × (read_u32be c ≡ ok (x, advance c 4))
unfolding write_u32be
read_u32be-write_u32be x w c rest h v e = (refl, u32be_Reads x h c rest v e)

pub i16be_Reads : (x : ℤ) → InRange 16 x → Reads read_i16be (be_bytes 2 (pattern_of 16 x)) x
i16be_Reads x h =
    subst (λ y. Reads read_i16be (be_bytes 2 (pattern_of 16 x)) y) (signed16-pattern x h)
      (Fixed-Reads read_i16be (signed_value 16) (be_bytes 2 (pattern_of 16 x)) read_i16be-Fixed)

-- For a signed number of 16 bits, `write_i16be` appends the two bytes of its two's complement to
-- any buffer, and `read_i16be` on a valid context that begins with those bytes gives the number and
-- stops behind them.
read_i16be-write_i16be :
    (x : ℤ) (w : WriteBuffer) (c : ReadCtxt) (rest : List ℕ)
    → InRange 16 x
    → IsValid c
    → remaining c ≡ be_bytes 2 (pattern_of 16 x) ++ rest
    → (write_i16be buffer_context x w
        ≡ ok (record { bytes = w.bytes ++ be_bytes 2 (pattern_of 16 x) }))
      × (read_i16be c ≡ ok (x, advance c 2))
unfolding write_i16be
read_i16be-write_i16be x w c rest h v e = (refl, i16be_Reads x h c rest v e)

i64be_Reads : (x : ℤ) → InRange 64 x → Reads read_i64be (be_bytes 8 (pattern_of 64 x)) x
i64be_Reads x h =
    subst (λ y. Reads read_i64be (be_bytes 8 (pattern_of 64 x)) y) (signed64-pattern x h)
      (Fixed-Reads read_i64be (signed_value 64) (be_bytes 8 (pattern_of 64 x)) read_i64be-Fixed)

-- For a signed number of 64 bits, `write_i64be` appends the eight bytes of its two's complement to
-- any buffer, and `read_i64be` on a valid context that begins with those bytes gives the number and
-- stops behind them.
read_i64be-write_i64be :
    (x : ℤ) (w : WriteBuffer) (c : ReadCtxt) (rest : List ℕ)
    → InRange 64 x
    → IsValid c
    → remaining c ≡ be_bytes 8 (pattern_of 64 x) ++ rest
    → (write_i64be buffer_context x w
        ≡ ok (record { bytes = w.bytes ++ be_bytes 8 (pattern_of 64 x) }))
      × (read_i64be c ≡ ok (x, advance c 8))
unfolding write_i64be
read_i64be-write_i64be x w c rest h v e = (refl, i64be_Reads x h c rest v e)
