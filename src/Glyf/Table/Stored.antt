-- ===== src/Glyf/Table/Stored.antt =====
-- src/tables/glyf.rs: what `GlyfTable::write_dep` writes for records that are not parsed.
use allsorts.Base.{
  ℕ, ◌+◌, ◌%◌, ◌^◌, ◌≤◌, ◌<◌, ◌≡◌, refl, arith, List, [], ◌∷◌, ◌++◌, length, length-append,
  replicate, All,
}
use allsorts.Binary.{word_align}
use allsorts.Binary.Write.{WriteBuffer, buffer_context, try_from}
use allsorts.Binary.Write.Count.{concat}
use allsorts.Error.{ok, ◌>>=◌}
use allsorts.Glyf.{GlyfRecord, empty, present, parsed}
use allsorts.Glyf.Table.{usize_sub, write_record, write_padding, write_records}
use allsorts.Loca.{IndexToLocFormat}
use mathlib.Core.List.{append_assoc, append-nil}

-- A record of bytes from a font, or of none.
abbrev pub IsStored : GlyfRecord → Type 0
IsStored empty = Unit {0}
IsStored (present scope) = 0 < length scope.bytes
IsStored (parsed glyph) = ⊥

abbrev pub record_bytes : GlyfRecord → List ℕ
record_bytes empty = []
record_bytes (present scope) = scope.bytes
record_bytes (parsed glyph) = []

-- The bytes as they are stored: the short format rounds up to an even length.
abbrev pub padded : IndexToLocFormat → List ℕ → List ℕ
padded IndexToLocFormat.short bytes = bytes ++ replicate (length bytes % 2) 0
padded IndexToLocFormat.long bytes = bytes

abbrev pub stored : IndexToLocFormat → GlyfRecord → List ℕ
stored format r = padded format (record_bytes r)

abbrev pub offsets_of : IndexToLocFormat → ℕ → List GlyfRecord → List ℕ
offsets_of format at [] = at ∷ []
offsets_of format at (r ∷ rs) = at ∷ offsets_of format (at + length (stored format r)) rs

write_record_lem :
    (r : GlyfRecord) (w : WriteBuffer)
    → IsStored r
    → write_record buffer_context r w ≡ ok (record { bytes = w.bytes ++ record_bytes r })
unfolding write_record
write_record_lem empty w h = rw (append-nil w.bytes) refl
write_record_lem (present scope) w h = refl
write_record_lem (parsed glyph) w h = absurd h

usize_sub_lem : (a b : ℕ) → b < 2 ^ 64 → usize_sub (a + b) a ≡ b
usize_sub_lem a b h = omega arith

write_padding_lem :
    (format : IndexToLocFormat) (bs xs : List ℕ)
    → length bs < 2 ^ 63
    → write_padding buffer_context format (length xs) (record { bytes = xs ++ bs })
      ≡ ok (record { bytes = xs ++ padded format bs })
unfolding write_padding word_align
write_padding_lem IndexToLocFormat.short bs xs h =
    let size : usize_sub (length (xs ++ bs)) (length xs) ≡ length bs =
      rw (length-append xs bs) (usize_sub_lem (length xs) (length bs) (omega arith)) in
    let rest : usize_sub (word_align (length bs)) (length bs) ≡ length bs % 2 = omega arith in
    rw (size, rest, append_assoc xs bs (replicate (length bs % 2) 0)) refl
write_padding_lem IndexToLocFormat.long bs xs h = refl

write_one :
    (format : IndexToLocFormat) (r : GlyfRecord) (w : WriteBuffer)
    → IsStored r
    → length (record_bytes r) < 2 ^ 63
    → (write_record buffer_context r w >>= write_padding buffer_context format (length w.bytes))
      ≡ ok (record { bytes = w.bytes ++ stored format r })
write_one format r w h k =
    rw (write_record_lem r w h) (write_padding_lem format (record_bytes r) w.bytes k)

pub length-padded :
    (format : IndexToLocFormat) (bs : List ℕ) → length bs ≤ length (padded format bs)
length-padded IndexToLocFormat.short bs =
    omega (arith, length-append bs (replicate (length bs % 2) 0))
length-padded IndexToLocFormat.long bs = omega arith

offset_lem :
    (w : WriteBuffer) (start at : ℕ)
    → length w.bytes ≡ start + at
    → at < 2 ^ 32
    → try_from (2 ^ 32) (usize_sub (length w.bytes) start) ≡ ok at
unfolding try_from
offset_lem w start at e h = rw (e, usize_sub_lem start at (omega arith)) (ground arith)

pub write_records_lem :
    (format : IndexToLocFormat) (start : ℕ) (rs : List GlyfRecord) (w : WriteBuffer) (at : ℕ)
    → All IsStored rs
    → length w.bytes ≡ start + at
    → at + length (concat (stored format) rs) < 2 ^ 32
    → write_records buffer_context format start rs w
      ≡ ok (offsets_of format at rs, record { bytes = w.bytes ++ concat (stored format) rs })
unfolding write_records
write_records_lem format start [] w at h e small =
    rw (offset_lem w start at e (omega arith), append-nil w.bytes) refl
write_records_lem format start (r ∷ rs) w at (h, hs) e small =
    let bs = stored format r in
    let more = concat (stored format) rs in
    let whole : length (bs ++ more) ≡ length bs + length more = length-append bs more in
    let least = length-padded format (record_bytes r) in
    let next : WriteBuffer = record { bytes = w.bytes ++ bs } in
    rw
      (
        offset_lem w start at e (omega arith),
        write_one format r w h (omega arith),
        write_records_lem format start rs next (at + length bs) hs
            (omega (arith, length-append w.bytes bs)) (omega arith),
        append_assoc w.bytes bs more,
      )
      refl
