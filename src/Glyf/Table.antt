-- ===== src/Glyf/Table.antt =====
-- src/tables/glyf.rs, `GlyfTable`: reading the records that lie between the offsets of `loca`, and
-- writing them with their offsets.
pub mod Between
pub mod Safety
pub mod Stored
pub mod Placed
pub mod RoundTrip
use allsorts.Base.{
  ℕ, zero, suc, ◌+◌, ◌-◌, ◌%◌, ◌^◌, ◌==◌, ltb, if◌then◌else◌, List, [], ◌∷◌, Option, none, some,
}
use allsorts.Binary.{word_align}
use allsorts.Binary.Scope.{ReadScope, offset, offset_length, usize_mod}
use allsorts.Binary.Read.{Reader, rest_scope}
use allsorts.Binary.Write.{WriteContext, WriteBinary, try_from}
use allsorts.Error.{
  Outcome, ok, err, panic, undefined, ParseError, bad_eof, bad_index, WriteError, ◌>>=◌,
}
use allsorts.Glyf.{GlyfRecord, GlyfTable}
use allsorts.Glyf.Subset.{parse}
use allsorts.Glyf.Write.{write_glyph}
use allsorts.Loca.{IndexToLocFormat, LocaTable, LocaOffsetsIter, offsets_len}
use allsorts.Loca.Read.{next}

-- A glyph that ends past the table is parsed without its length.
unfoldable pub present_or_parse :
    ReadScope → ℕ → Outcome ParseError ReadScope → Outcome ParseError GlyfRecord
unfolding parse
present_or_parse scope start (ok glyph_scope) = ok (GlyfRecord.present glyph_scope)
present_or_parse scope start (err ParseError.bad_eof) =
    parse (GlyfRecord.present (offset scope start))
present_or_parse scope start (err e) = err e
present_or_parse scope start panic = panic
present_or_parse scope start undefined = undefined

-- `match end.checked_sub(start)`; a `u32` is a `usize`.
unfoldable pub record_between : ReadScope → ℕ → ℕ → Outcome ParseError GlyfRecord
unfolding present_or_parse
record_between scope start end =
    if ltb end start
    then err ParseError.bad_offset
    else if end - start == 0
    then ok GlyfRecord.empty
    else present_or_parse scope start (offset_length scope start (end - start))

-- The windows of two offsets of the iterator, from `start` on, on fuel
unfoldable pub read_records :
    ℕ → ReadScope → ℕ → LocaOffsetsIter → Outcome ParseError (List GlyfRecord)
unfolding record_between
read_records zero scope start it = panic
read_records (suc fuel) scope start it = next it >>= λ r. elim r.0 [
  | none ↦ ok []
  | some end ↦ record_between scope start end >>= λ found.
      read_records fuel scope end r.1 >>= λ rest. ok (found ∷ rest)
]

-- `GlyfTable::read_dep`: the context does not move.
unfoldable pub read_glyf : LocaTable → Reader GlyfTable
unfolding read_records
read_glyf loca c =
    if ltb (offsets_len loca.offsets) 2
    then err bad_index
    else (next (record { offsets = loca.offsets; index = 0 }) >>= λ first. elim first.0 [
      | none ↦ ok (record { records = [] }, c)
      | some start ↦
          read_records (offsets_len loca.offsets) (rest_scope c) start first.1 >>= λ records.
          ok (record { records = records }, c)
    ])

abbrev pub usize_sub : ℕ → ℕ → ℕ
usize_sub a b = (a + usize_mod - b) % usize_mod

unfoldable pub write_record : WriteBinary GlyfRecord
write_record ctx GlyfRecord.empty w = ok w
write_record ctx (GlyfRecord.present glyph) w = ctx.write_bytes glyph.bytes w
write_record ctx (GlyfRecord.parsed glyph) w = write_glyph ctx glyph w

-- Glyphs of the short format are aligned to 16 bits.
unfoldable pub write_padding :
    (ctx : WriteContext) → IndexToLocFormat → ℕ → ctx.State → Outcome WriteError ctx.State
write_padding ctx IndexToLocFormat.short start w =
    let size = usize_sub (ctx.bytes_written w) start in
    ctx.write_zeros (usize_sub (word_align size) size) w
write_padding ctx IndexToLocFormat.long start w = ok w

-- The loop over the records, and the last offset
unfoldable pub write_records :
    (ctx : WriteContext)
    → IndexToLocFormat
    → ℕ
    → List GlyfRecord
    → ctx.State
    → Outcome WriteError (List ℕ × ctx.State)
unfolding write_record write_padding
write_records ctx format start [] w =
    try_from (2 ^ 32) (usize_sub (ctx.bytes_written w) start) >>= λ end. ok (end ∷ [], w)
write_records ctx format start (glyph ∷ glyphs) w =
    try_from (2 ^ 32) (usize_sub (ctx.bytes_written w) start) >>= λ at.
    write_record ctx glyph w >>= write_padding ctx format (ctx.bytes_written w) >>= λ w.
    write_records ctx format start glyphs w >>= λ rest. ok (at ∷ rest.0, rest.1)

-- `GlyfTable::write_dep`, which returns the offsets
unfoldable pub write_glyf :
    (ctx : WriteContext)
    → GlyfTable
    → IndexToLocFormat
    → ctx.State
    → Outcome WriteError (List ℕ × ctx.State)
unfolding write_records
write_glyf ctx table format w = write_records ctx format (ctx.bytes_written w) table.records w
