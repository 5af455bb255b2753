-- ===== src/Context.antt =====
-- src/context.rs: which glyphs a lookup passes over, and whether the glyphs around a position match a
-- context. A slice of glyphs is the list of their glyph indices, the only thing that the code asks of
-- a `Glyph`.
pub mod Filter
pub mod Find
pub mod Slots
pub mod Back
pub mod Match
pub mod Flags
use allsorts.Base.{
  ℕ, zero, suc, ◌+◌, ◌*◌, ◌/◌, ◌%◌, ◌^◌, bit_and, ◌==◌, ◌&&◌, ◌||◌, not, Bool, true, false, ltb,
  if◌then◌else◌, List, [], ◌∷◌, Option, none, some, length, get_elem?,
}
use allsorts.Binary.Scope.{usize_add}
use allsorts.Error.{Outcome, ok, err, panic, undefined, ParseError, ◌>>=◌}
use allsorts.Layout.ClassDef.{ClassDef, glyph_class_value}
use allsorts.Layout.Coverage.{Coverage, glyph_coverage_value}
use allsorts.Gdef.{GdefTable, glyph_class, mark_attach_class}

pub data IgnoreMarks : Type 0 where
  no_ignore_marks : IgnoreMarks
  ignore_all_marks : IgnoreMarks
  ignore_marks_except : ℕ → IgnoreMarks

pub record MatchType : Type 0 where
  pub ignore_bases : Bool
  pub ignore_ligatures : Bool
  pub ignore_marks : IgnoreMarks

pub data GlyphTable : Type 0 where
  empty : GlyphTable
  by_id : List ℕ → GlyphTable
  by_class_def : ClassDef → List ℕ → GlyphTable
  by_coverage : List Coverage → GlyphTable

pub record MatchContext : Type 0 where
  pub backtrack_table : GlyphTable
  pub input_table : GlyphTable
  pub lookahead_table : GlyphTable

-- `LookupFlag`, a word of 16 bits
abbrev pub get_rtl : ℕ → Bool
get_rtl flag = not (bit_and flag 0x0001 == 0)

abbrev pub get_ignore_bases : ℕ → Bool
get_ignore_bases flag = not (bit_and flag 0x0002 == 0)

abbrev pub get_ignore_ligatures : ℕ → Bool
get_ignore_ligatures flag = not (bit_and flag 0x0004 == 0)

abbrev pub get_ignore_marks : ℕ → IgnoreMarks
get_ignore_marks flag =
    if not (bit_and flag 0x8 == 0)
    then ignore_all_marks
    else if not (bit_and flag 0xff00 == 0)
    then ignore_marks_except (flag / 2 ^ 8 % 2 ^ 8)
    else no_ignore_marks

-- `MatchType::ignore_marks`
abbrev pub skip_marks : MatchType
skip_marks = record {
  ignore_bases = false;
  ignore_ligatures = false;
  ignore_marks = ignore_all_marks;
}

abbrev pub marks_only : MatchType
marks_only = record { ignore_bases = true; ignore_ligatures = true; ignore_marks = no_ignore_marks }

unfoldable pub from_lookup_flag : ℕ → MatchType
from_lookup_flag lookup_flag = record {
  ignore_bases = get_ignore_bases lookup_flag;
  ignore_ligatures = get_ignore_ligatures lookup_flag;
  ignore_marks = get_ignore_marks lookup_flag;
}

abbrev pub is_no_ignore_marks : IgnoreMarks → Bool
is_no_ignore_marks no_ignore_marks = true
is_no_ignore_marks ignore_all_marks = false
is_no_ignore_marks (ignore_marks_except c) = false

-- The last test of `match_glyph`, on a glyph of a class.
unfoldable pub match_marks : IgnoreMarks → Option GdefTable → ℕ → ℕ → Outcome ParseError Bool
match_marks no_ignore_marks opt_gdef_table glyph class = ok true
match_marks ignore_all_marks opt_gdef_table glyph class = ok (not (class == 3))
match_marks (ignore_marks_except keep_class) opt_gdef_table glyph class =
    mark_attach_class opt_gdef_table glyph >>= λ mark_class.
    ok (not (class == 3) || (mark_class == keep_class))

unfoldable pub match_glyph : MatchType → Option GdefTable → ℕ → Outcome ParseError Bool
unfolding match_marks
match_glyph m opt_gdef_table glyph =
    if not m.ignore_bases && (not m.ignore_ligatures && is_no_ignore_marks m.ignore_marks)
    then ok true
    else glyph_class opt_gdef_table glyph >>= λ class.
        if m.ignore_bases && (class == 1)
        then ok false
        else if m.ignore_ligatures && (class == 2)
        then ok false
        else match_marks m.ignore_marks opt_gdef_table glyph class

-- `slice[i]`
abbrev pub at : {A : Type 0} → List A → ℕ → Outcome ParseError A
at xs i = elim (get_elem? xs i) [ none ↦ panic | some x ↦ ok x ]

module _ (m : MatchType) (opt_gdef_table : Option GdefTable) (glyphs : List ℕ) where
  -- `match_glyph(&glyphs[index])`
  abbrev pub match_at : ℕ → Outcome ParseError Bool
  match_at index = at glyphs index >>= λ glyph. match_glyph m opt_gdef_table glyph

  unfoldable pub find_prev : ℕ → Outcome ParseError (Option ℕ)
  find_prev zero = ok none
  find_prev (suc index) =
      let rest = find_prev index in
      match_at index >>= λ matched. if matched then ok (some index) else rest

  -- The loop of `find_next`, which passes over each glyph at most once.
  unfoldable pub find_next_loop : ℕ → ℕ → Outcome ParseError (Option ℕ)
  find_next_loop zero index = ok none
  find_next_loop (suc fuel) index =
      let next = usize_add index 1 in
      let rest = find_next_loop fuel next in
      if ltb next (length glyphs)
      then (match_at next >>= λ matched. if matched then ok (some next) else rest)
      else ok none

  unfoldable pub find_next : ℕ → Outcome ParseError (Option ℕ)
  unfolding find_next_loop
  find_next index = find_next_loop (length glyphs) index

  unfoldable pub find_nth : ℕ → ℕ → Outcome ParseError (Option ℕ)
  unfolding find_next
  find_nth index zero = ok (some index)
  find_nth index (suc count) = find_next index >>= λ found. elim found [
    | some next_index ↦ find_nth next_index count
    | none ↦ ok none
  ]

  -- The loop of `find_first` from a position on.
  unfoldable pub find_first_from : ℕ → List ℕ → Outcome ParseError (Option ℕ)
  find_first_from index [] = ok none
  find_first_from index (glyph ∷ rest) =
      let later = find_first_from (index + 1) rest in
      match_glyph m opt_gdef_table glyph >>= λ matched. if matched then ok (some index) else later

  unfoldable pub find_first : Outcome ParseError (Option ℕ)
  unfolding find_first_from
  find_first = find_first_from 0 glyphs

-- `GlyphTable::len`
abbrev pub table_len : GlyphTable → ℕ
table_len empty = 0
table_len (by_id arr) = length arr
table_len (by_class_def d arr) = length arr
table_len (by_coverage vec) = length vec

abbrev pub is_some : Option ℕ → Bool
is_some none = false
is_some (some x) = true

unfoldable pub check_glyph_table : GlyphTable → ℕ → ℕ → Outcome ParseError Bool
check_glyph_table empty i glyph_index = ok false
check_glyph_table (by_id table) i glyph_index = at table i >>= λ x. ok (x == glyph_index)
check_glyph_table (by_class_def classdef table) i glyph_index =
    glyph_class_value classdef glyph_index >>= λ class. at table i >>= λ x. ok (class == x)
check_glyph_table (by_coverage vec) i glyph_index =
    at vec i >>= λ coverage. ok (is_some (glyph_coverage_value coverage glyph_index))

module _ (m : MatchType) (opt_gdef_table : Option GdefTable) (glyph_table : GlyphTable)
    (glyphs : List ℕ) where
  -- The loop of `match_back`: the entries that are left, the entry to match next, and the index.
  unfoldable pub match_back_loop : ℕ → ℕ → ℕ → Outcome ParseError Bool
  match_back_loop zero i index = ok true
  match_back_loop (suc left) i index = find_prev m opt_gdef_table glyphs index >>= λ found.
      elim found [
        | none ↦ ok false
        | some prev_index ↦ at glyphs prev_index >>= λ glyph_index.
            check_glyph_table glyph_table i glyph_index >>= λ matched. elim matched [
              | false ↦ ok false
              | true ↦ match_back_loop left (i + 1) prev_index
            ]
      ]

  unfoldable pub match_back : ℕ → Outcome ParseError Bool
  unfolding match_back_loop
  match_back index = match_back_loop (table_len glyph_table) 0 index

  -- The loop of `match_front`, with `last_index` as it is and its value at the end.
  unfoldable pub match_front_loop : ℕ → ℕ → ℕ → ℕ → Outcome ParseError (Bool × ℕ)
  match_front_loop zero i index last_index = ok (true, index)
  match_front_loop (suc left) i index last_index =
      find_next m opt_gdef_table glyphs index >>= λ found. elim found [
        | none ↦ ok (false, last_index)
        | some next_index ↦ at glyphs next_index >>= λ glyph_index.
            check_glyph_table glyph_table i glyph_index >>= λ matched. elim matched [
              | false ↦ ok (false, last_index)
              | true ↦ match_front_loop left (i + 1) next_index last_index
            ]
      ]

  unfoldable pub match_front : ℕ → ℕ → Outcome ParseError (Bool × ℕ)
  unfolding match_front_loop
  match_front index last_index = match_front_loop (table_len glyph_table) 0 index last_index

unfoldable pub matches :
    MatchContext → Option GdefTable → MatchType → List ℕ → ℕ → Outcome ParseError Bool
unfolding match_back match_front
matches c opt_gdef_table m glyphs index =
    match_back m opt_gdef_table c.backtrack_table glyphs index >>= λ back. elim back [
      | false ↦ ok false
      | true ↦
          match_front m opt_gdef_table c.input_table glyphs index index >>= λ (input, front_index).
          elim input [
            | false ↦ ok false
            | true ↦
                match_front m opt_gdef_table c.lookahead_table glyphs front_index front_index
                >>= λ (lookahead, _). ok lookahead
          ]
    ]
