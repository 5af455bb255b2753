-- ===== src/Loca/RoundTrip.antt =====
-- src/tables/loca.rs: the bytes that are written for some offsets, in both formats.
use allsorts.Base.{ℕ, ◌/◌, ◌%◌, ◌^◌, ◌<◌, ◌≡◌, refl}
use allsorts.Base.{List, [], ◌∷◌, ◌++◌, some, Bool, true, ◌&&◌, arith}
use allsorts.Base.{ltb, ◌==◌, if◌then◌else◌}
use allsorts.Base.{Option-cases, inl, inr}
use allsorts.Base.Bits.{bit_and-one}
use allsorts.Binary.Write.{
  WriteBuffer, buffer_context, be_bytes, write_u16be, write_u32be, try_from,
}
use allsorts.Binary.Write.Count.{concat, write_vec-concat}
use allsorts.Loca.{IndexToLocFormat}
use allsorts.Loca.Write.{write_short, write_offsets, last}
use allsorts.Error.{ok, err, WriteError}
use mathlib.Core.List.{append_assoc, append-nil}

-- The offsets that the short format can store.
abbrev pub is_short : ℕ → Bool
is_short o = o % 2 == 0 && ltb o (2 ^ 17)

abbrev pub all_short : List ℕ → Bool
all_short [] = true
all_short (o ∷ os) = is_short o && all_short os

-- Two bytes for half the offset, or four bytes for the whole.
abbrev pub short_bytes : ℕ → List ℕ
short_bytes o = be_bytes 2 (o / 2)

abbrev pub long_bytes : ℕ → List ℕ
long_bytes o = be_bytes 4 o

write_short_lem :
    (os : List ℕ) (w : WriteBuffer)
    → write_short buffer_context os w ≡ (
        if all_short os
        then ok (record { bytes = w.bytes ++ concat short_bytes os })
        else err WriteError.bad_value)
unfolding write_short write_u16be try_from
write_short_lem [] w = rw append-nil refl
write_short_lem (o ∷ os) w = ground (
  arith,
  bit_and-one o,
  write_short_lem os (record { bytes = w.bytes ++ short_bytes o }),
  append_assoc w.bytes (short_bytes o) (concat short_bytes os),
)

last_short : (os : List ℕ) (end : ℕ) → last os ≡ some end → all_short os ≡ true → end < 2 ^ 17
last_short [] end e h = cc
last_short (o ∷ []) end e h = ground arith
last_short (o ∷ p ∷ os) end e h = ground (arith, last_short (p ∷ os) end e)

-- For every list of offsets and every buffer, the short format is written, each offset halved,
-- where all offsets are even and below 2 ^ 17, and is a bad value otherwise.
pub write_offsets-short :
    (os : List ℕ) (w : WriteBuffer)
    → write_offsets buffer_context os IndexToLocFormat.short w ≡ (
        if all_short os
        then ok (record { bytes = w.bytes ++ concat short_bytes os })
        else err WriteError.bad_value)
unfolding write_offsets
write_offsets-short os w = elim (Option-cases (last os)) [
  | inl e ↦ rw (e, write_offsets) (write_short_lem os w)
  | inr (end, e) ↦ ground (arith, e, write_short_lem os w, last_short os end e)
]

pub write_offsets-long :
    (os : List ℕ) (w : WriteBuffer)
    → write_offsets buffer_context os IndexToLocFormat.long w
      ≡ ok (record { bytes = w.bytes ++ concat long_bytes os })
unfolding write_offsets
write_offsets-long os w =
    write_vec-concat write_u32be long_bytes (unfold write_u32be in λ ctx x v. refl) os w
