-- ===== src/Glyf/Subset.antt =====
-- src/tables/glyf.rs, `GlyfTable::subset`: the records of some glyphs and of all the glyphs that
-- their components name, with new numbers.
pub mod Missing
pub mod Places
pub mod Record
pub mod Closure
use allsorts.Base.{
  ℕ, zero, suc, ◌+◌, ◌%◌, ◌^◌, ◌==◌, ltb, if◌then◌else◌, Bool, true, false, List, [], ◌∷◌, ◌++◌,
  map, Option, none, some, length, get_elem?,
}
use allsorts.Base.Int.{ℤ, pos, negsuc}
use allsorts.Binary.Read.{scope_read, read_i16be}
use allsorts.Context.{at}
use allsorts.Error.{Outcome, ok, panic, ParseError, bad_index, ok_or, ◌>>=◌}
use allsorts.Glyf.{
  CompositeGlyph, GlyphData, simple, composite, Glyph, GlyfRecord, empty, present, parsed,
  GlyfTable,
}
use allsorts.Glyf.Read.{read_glyph}
use allsorts.Scripts.Joining.{position}

unfoldable pub number_of_contours : GlyfRecord → Outcome ParseError ℤ
number_of_contours empty = ok (pos 0)
number_of_contours (present scope) = scope_read read_i16be scope
number_of_contours (parsed glyph) = ok glyph.number_of_contours

abbrev pub is_negative : ℤ → Bool
is_negative (pos n) = false
is_negative (negsuc n) = true

unfoldable pub is_composite : GlyfRecord → Outcome ParseError Bool
unfolding number_of_contours
is_composite record_of = number_of_contours record_of >>= λ n. ok (is_negative n)

unfoldable pub parse : GlyfRecord → Outcome ParseError GlyfRecord
parse empty = ok empty
parse (present scope) = scope_read read_glyph scope >>= λ glyph. ok (parsed glyph)
parse (parsed glyph) = ok (parsed glyph)

-- The new number of a glyph: its place among the numbers, where it is pushed if it is new.
unfoldable pub place : ℕ → List ℕ → List ℕ × ℕ
place id glyph_ids = elim (position (λ x. x == id) glyph_ids) [
  | some new_id ↦ (glyph_ids, new_id)
  | none ↦ (glyph_ids ++ id ∷ [], length glyph_ids)
]

-- `for composite_glyph in glyphs.iter_mut()`; the new number is cut to a `u16`.
unfoldable pub add_components : List CompositeGlyph → List ℕ → List ℕ × List CompositeGlyph
unfolding place
add_components [] glyph_ids = (glyph_ids, [])
add_components (glyph ∷ glyphs) glyph_ids =
    let placed = place glyph.glyph_index glyph_ids in
    let rest = add_components glyphs placed.0 in
    (rest.0, record glyph { glyph_index = placed.1 % 2 ^ 16 } ∷ rest.1)

-- `unreachable!` for all but a composite glyph
unfoldable pub add_to : Glyph → GlyphData → List ℕ → Outcome ParseError (List ℕ × GlyfRecord)
unfolding add_components
add_to glyph (simple _) glyph_ids = panic
add_to glyph (composite glyphs instructions) glyph_ids =
    let added = add_components glyphs glyph_ids in
    ok (added.0, parsed (record glyph { glyph_data = composite added.1 instructions }))

unfoldable pub add_glyph : GlyfRecord → List ℕ → Outcome ParseError (List ℕ × GlyfRecord)
unfolding add_to
add_glyph empty glyph_ids = panic
add_glyph (present scope) glyph_ids = panic
add_glyph (parsed glyph) glyph_ids = add_to glyph glyph.glyph_data glyph_ids

-- The record as the subset has it, and the numbers with those that it adds
unfoldable pub subset_record : GlyfRecord → List ℕ → Outcome ParseError (List ℕ × GlyfRecord)
unfolding is_composite parse add_glyph
subset_record record_of glyph_ids = is_composite record_of >>= λ has_components.
    if has_components
    then (parse record_of >>= λ glyph. add_glyph glyph glyph_ids)
    else ok (glyph_ids, record_of)

module _ (records : List GlyfRecord) where
  -- `while i < glyph_ids.len()`: the old number and the new record of each glyph from `i` on, and all
  -- the numbers. Each round but the last takes a number; a number is pushed once, and has 16 bits.
  unfoldable pub subset_loop : ℕ → ℕ → List ℕ → Outcome ParseError (List (ℕ × GlyfRecord) × List ℕ)
  unfolding subset_record
  subset_loop zero i glyph_ids = panic
  subset_loop (suc fuel) i glyph_ids = elim (ltb i (length glyph_ids)) [
    | false ↦ ok ([], glyph_ids)
    | true ↦ at glyph_ids i >>= λ glyph_id.
        ok_or (get_elem? records glyph_id) bad_index >>= λ found.
        subset_record found glyph_ids >>= λ made.
        subset_loop fuel (i + 1) made.0 >>= λ rest. ok ((glyph_id, made.1) ∷ rest.0, rest.1)
  ]

-- The new records, and the old number of each.
unfoldable pub subset : GlyfTable → List ℕ → Outcome ParseError (GlyfTable × List ℕ)
unfolding subset_loop
subset table glyph_ids =
    subset_loop table.records (length glyph_ids + 2 ^ 16 + 1) 0 glyph_ids >>= λ made.
    ok (record { records = map (λ p. p.1) made.0 }, map (λ p. p.0) made.0)
