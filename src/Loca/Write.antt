-- ===== src/Loca/Write.antt =====
-- src/tables/loca.rs, `mod owned`: writing a table of offsets.
use allsorts.Base.{
  ℕ, ◌/◌, ◌^◌, List, [], ◌∷◌, Option, none, some, ltb, ◌==◌, if◌then◌else◌, bit_and,
}
use allsorts.Binary.Write.{WriteContext, write_u16be, write_u32be, write_vec, try_from}
use allsorts.Loca.{IndexToLocFormat}
use allsorts.Error.{Outcome, ok, err, WriteError, ◌>>=◌}

-- `Vec::last`
abbrev pub last : List ℕ → Option ℕ
last [] = none
last (x ∷ []) = some x
last (x ∷ y ∷ xs) = last (y ∷ xs)

-- The loop of the short format: an odd offset or one that does not fit is an error.
unfoldable pub write_short :
    (ctx : WriteContext) → List ℕ → ctx.State → Outcome WriteError ctx.State
write_short ctx [] w = ok w
write_short ctx (o ∷ os) w =
    if bit_and o 1 == 1
    then err WriteError.bad_value
    else (try_from (2 ^ 16) (o / 2) >>= λ short_offset.
        write_u16be ctx short_offset w >>= write_short ctx os)

unfoldable pub write_offsets :
    (ctx : WriteContext) → List ℕ → IndexToLocFormat → ctx.State → Outcome WriteError ctx.State
unfolding write_short
write_offsets ctx offsets IndexToLocFormat.short w = elim (last offsets) [
  | some end ↦ if ltb 0xffff (end / 2) then err WriteError.bad_value else write_short ctx offsets w
  | none ↦ write_short ctx offsets w
]
write_offsets ctx offsets IndexToLocFormat.long w = write_vec write_u32be ctx offsets w
