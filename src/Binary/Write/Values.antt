-- ===== src/Binary/Write/Values.antt =====
-- The bytes of the primitive writers in a buffer, and the primitive reads on them.
use allsorts.Base.{ℕ, zero, suc, ◌-◌, ◌^◌, ◌<◌, ◌≡◌, refl, ap, subst}
use allsorts.Base.{List, [], ◌∷◌, ◌++◌, length, All, arith, ltb, if◌then◌else◌}
use allsorts.Base.Int.{ℤ, pos, negsuc, ◌≤ℤ◌}
use allsorts.Binary.Read.{
  Reader, IsByte, signed, read_u8, read_i8, read_u16be, read_i16be, read_u32be, read_i32be,
  read_i64be,
}
use allsorts.Binary.Read.Remaining.{Reads}
use allsorts.Binary.Read.Values.{be_value, Fixed}
use allsorts.Binary.Read.Fixed.{
  signed_value, Fixed-Reads, read_u8-Fixed, read_i8-Fixed, read_u16be-Fixed, read_i16be-Fixed,
  read_u32be-Fixed, read_i32be-Fixed, read_i64be-Fixed,
}
use allsorts.Binary.Write.{
  WriteBinary, WriteBuffer, buffer_context, be_bytes, pattern_of, write_u8, write_i8, write_u16be,
  write_i16be, write_u24be, write_u32be, write_i32be, write_i64be,
}
use allsorts.Error.{ok, err, WriteError}

-- The writer adds the bytes `bs` at the end of the buffer and changes nothing else.
abbrev pub Appends : {A : Type 0} → WriteBinary A → A → List ℕ → Type 0
Appends write x bs =
    (w : WriteBuffer) → write buffer_context x w ≡ ok (record { bytes = w.bytes ++ bs })

-- What is written is read back: some bytes are appended, and the reader takes exactly those.
abbrev pub RoundTrips : {A : Type 0} → WriteBinary A → Reader A → A → Type 0
RoundTrips write read x = (bs : List ℕ) × Appends write x bs × Reads read bs x

-- A signed number of `w` bits.
abbrev pub InRange : ℕ → ℤ → Type 0
InRange w x = (negsuc (2 ^ (w - 1) - 1) ≤ℤ x) × (x ≤ℤ pos (2 ^ (w - 1) - 1))

pub length-be_bytes : (n x : ℕ) → length (be_bytes n x) ≡ n
length-be_bytes zero x = refl
length-be_bytes (suc n) x = ap suc (length-be_bytes n x)

pub be_bytes-octets : (n x : ℕ) → All IsByte (be_bytes n x)
be_bytes-octets zero x = tt
be_bytes-octets (suc n) x = (omega arith, be_bytes-octets n x)

u16_value : (x : ℕ) → x < 2 ^ 16 → be_value (be_bytes 2 x) ≡ x
u16_value x h = omega arith

pub u32_value : (x : ℕ) → x < 2 ^ 32 → be_value (be_bytes 4 x) ≡ x
u32_value x h = omega arith

u64_value : (x : ℕ) → x < 2 ^ 64 → be_value (be_bytes 8 x) ≡ x
u64_value x h = omega arith

signed8-pattern : (x : ℤ) → InRange 8 x → signed 8 (be_value (be_bytes 1 (pattern_of 8 x))) ≡ x
signed8-pattern x h = ground arith

pub signed16-pattern :
    (x : ℤ) → InRange 16 x → signed 16 (be_value (be_bytes 2 (pattern_of 16 x))) ≡ x
signed16-pattern x h = ground (arith, u16_value (pattern_of 16 x))

signed32-pattern : (x : ℤ) → InRange 32 x → signed 32 (be_value (be_bytes 4 (pattern_of 32 x))) ≡ x
signed32-pattern x h = ground (arith, u32_value (pattern_of 32 x))

pub signed64-pattern :
    (x : ℤ) → InRange 64 x → signed 64 (be_value (be_bytes 8 (pattern_of 64 x))) ≡ x
signed64-pattern x h = ground (arith, u64_value (pattern_of 64 x))

-- A fixed-size read of what a writer appends.
pub Fixed-RoundTrips :
    {A : Type 0} (write : WriteBinary A) (read : Reader A) (value : List ℕ → A) (bs : List ℕ)
    (x : A)
    → Appends write x bs
    → Fixed read (length bs) value
    → value bs ≡ x
    → RoundTrips write read x
Fixed-RoundTrips write read value bs x appends fixed e =
    (bs, appends, subst (λ y. Reads read bs y) e (Fixed-Reads read value bs fixed))

pub u8-RoundTrips : (x : ℕ) → x < 2 ^ 8 → RoundTrips write_u8 read_u8 x
unfolding write_u8
u8-RoundTrips x h =
    Fixed-RoundTrips write_u8 read_u8 be_value (x ∷ []) x (λ w. refl) read_u8-Fixed (omega arith)

pub i8-RoundTrips : (x : ℤ) → InRange 8 x → RoundTrips write_i8 read_i8 x
unfolding write_i8
i8-RoundTrips x h =
    Fixed-RoundTrips write_i8 read_i8 (signed_value 8) (be_bytes 1 (pattern_of 8 x)) x (λ w. refl)
      read_i8-Fixed (signed8-pattern x h)

pub u16be-RoundTrips : (x : ℕ) → x < 2 ^ 16 → RoundTrips write_u16be read_u16be x
unfolding write_u16be
u16be-RoundTrips x h =
    Fixed-RoundTrips write_u16be read_u16be be_value (be_bytes 2 x) x (λ w. refl) read_u16be-Fixed
      (u16_value x h)

pub i16be-RoundTrips : (x : ℤ) → InRange 16 x → RoundTrips write_i16be read_i16be x
unfolding write_i16be
i16be-RoundTrips x h =
    Fixed-RoundTrips write_i16be read_i16be (signed_value 16) (be_bytes 2 (pattern_of 16 x)) x
      (λ w. refl) read_i16be-Fixed (signed16-pattern x h)

pub u32be-RoundTrips : (x : ℕ) → x < 2 ^ 32 → RoundTrips write_u32be read_u32be x
unfolding write_u32be
u32be-RoundTrips x h =
    Fixed-RoundTrips write_u32be read_u32be be_value (be_bytes 4 x) x (λ w. refl) read_u32be-Fixed
      (u32_value x h)

pub i32be-RoundTrips : (x : ℤ) → InRange 32 x → RoundTrips write_i32be read_i32be x
unfolding write_i32be
i32be-RoundTrips x h =
    Fixed-RoundTrips write_i32be read_i32be (signed_value 32) (be_bytes 4 (pattern_of 32 x)) x
      (λ w. refl) read_i32be-Fixed (signed32-pattern x h)

pub i64be-RoundTrips : (x : ℤ) → InRange 64 x → RoundTrips write_i64be read_i64be x
unfolding write_i64be
i64be-RoundTrips x h =
    Fixed-RoundTrips write_i64be read_i64be (signed_value 64) (be_bytes 8 (pattern_of 64 x)) x
      (λ w. refl) read_i64be-Fixed (signed64-pattern x h)

-- For every number and buffer, `write_u24be` appends the number's three low bytes where it is below
-- 2 ^ 24, and is a bad value otherwise.
write_u24be_lem :
    (x : ℕ) (w : WriteBuffer)
    → write_u24be buffer_context x w ≡ (
        if ltb x (2 ^ 24)
        then ok (record { bytes = w.bytes ++ be_bytes 3 x })
        else err WriteError.bad_value)
unfolding write_u24be
write_u24be_lem x w = ground arith
