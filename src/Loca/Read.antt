-- ===== src/Loca/Read.antt =====
-- src/tables/loca.rs: reading the table, and the iterator over its offsets.
use allsorts.Base.{ℕ, zero, suc, ◌+◌, ◌*◌, List, [], ◌∷◌, Option, none, some, ltb, if◌then◌else◌}
use allsorts.Binary.Read.{Reader, pure}
use allsorts.Binary.Read
use allsorts.Binary.Unchecked.{read_array, u16be, u32be}
use allsorts.Binary.Array.{get_item}
use allsorts.Loca.{IndexToLocFormat, LocaOffsets, LocaTable, LocaOffsetsIter, offsets_len}
use allsorts.Error.{Outcome, ok, panic, ParseError, ◌>>=◌}

-- `num_glyphs + 1` entries are read; `num_glyphs` comes from a `u16`.
unfoldable pub read_loca : ℕ → IndexToLocFormat → Reader LocaTable
read_loca num_glyphs IndexToLocFormat.short =
    Read.◌>>=◌ (read_array u16be (num_glyphs + 1))
      (λ array. pure (record { offsets = LocaOffsets.short array }))
read_loca num_glyphs IndexToLocFormat.long =
    Read.◌>>=◌ (read_array u32be (num_glyphs + 1))
      (λ array. pure (record { offsets = LocaOffsets.long array }))

-- The offset at an index; the short format stores half of it.
unfoldable pub offset_at : LocaOffsets → ℕ → Outcome ParseError ℕ
offset_at (LocaOffsets.short array) index = get_item u16be array index >>= λ x. ok (x * 2)
offset_at (LocaOffsets.long array) index = get_item u32be array index

-- `Iterator::next`
unfoldable pub next : LocaOffsetsIter → Outcome ParseError (Option ℕ × LocaOffsetsIter)
next it =
    if ltb it.index (offsets_len it.offsets)
    then (offset_at it.offsets it.index >>= λ item.
        ok (some item, record it { index = it.index + 1 }))
    else ok (none, it)

-- A loop over the iterator, on fuel.
unfoldable pub collect : ℕ → LocaOffsetsIter → Outcome ParseError (List ℕ)
collect zero it = panic
collect (suc fuel) it =
    next it >>= λ r. elim r.0 [ none ↦ ok [] | some a ↦ collect fuel r.1 >>= λ rest. ok (a ∷ rest) ]

-- `offsets.iter().collect()`
unfoldable pub all_offsets : LocaTable → Outcome ParseError (List ℕ)
unfolding collect
all_offsets loca =
    collect (suc (offsets_len loca.offsets)) (record { offsets = loca.offsets; index = 0 })
