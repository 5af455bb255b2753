-- ===== src/Gsub.antt =====
-- src/layout.rs and src/gsub.rs: the substitutions of one glyph by another, by several and by an
-- alternative. A table that many subtables share is held by value.
pub mod Glyph
pub mod Single
pub mod Multiple
pub mod Ligature
pub mod Lookup
pub mod Fraction
use allsorts.Base.{
  ℕ, zero, suc, ◌+◌, ◌-◌, ◌*◌, ◌%◌, ◌^◌, ◌==◌, ◌||◌, Bool, true, false, ltb, leb, if◌then◌else◌,
  List, [], ◌∷◌, Option, none, some, length,
}
use allsorts.Base.Int.{ℤ, pos_part, neg_part}
use allsorts.Layout.Coverage.{Coverage, glyph_coverage_value}
use allsorts.Context.{at}
use allsorts.Error.{Outcome, ok, err, panic, ParseError, bad_index, ◌>>=◌}
use allsorts.Gsub.Glyph.{RawGlyph, direct}

-- `format1` holds the number that is added to a glyph, of 16 bits with a sign.
pub data SingleSubst : Type 0 where
  format1 : Coverage → ℤ → SingleSubst
  format2 : Coverage → List ℕ → SingleSubst

pub record MultipleSubst : Type 0 where
  pub coverage : Coverage
  pub sequences : List (List ℕ)

pub record AlternateSubst : Type 0 where
  pub coverage : Coverage
  pub alternatesets : List (List ℕ)

-- `check_index(i)?` and `[i]`
abbrev pub checked_at : {A : Type 0} → List A → ℕ → Outcome ParseError A
checked_at xs i = if ltb i (length xs) then at xs i else err bad_index

-- `(glyph as isize + delta as isize) & 0xffff`, of a delta of 16 bits
abbrev pub add_delta : ℕ → ℤ → ℕ
add_delta glyph delta = (glyph + pos_part delta + 2 ^ 64 - neg_part delta) % 2 ^ 64 % 2 ^ 16

unfoldable pub single_apply_glyph : SingleSubst → ℕ → Outcome ParseError (Option ℕ)
single_apply_glyph (format1 coverage delta) glyph = elim (glyph_coverage_value coverage glyph) [
  | some i ↦ ok (some (add_delta glyph delta))
  | none ↦ ok none
]
single_apply_glyph (format2 coverage substitutes) glyph =
    elim (glyph_coverage_value coverage glyph) [
      | some coverage_index ↦ checked_at substitutes coverage_index >>= λ new. ok (some new)
      | none ↦ ok none
    ]

-- `apply_glyph` of the other substitutions: the entry of the glyph.
unfoldable pub entry_of : {A : Type 0} → Coverage → List A → ℕ → Outcome ParseError (Option A)
entry_of coverage entries glyph = elim (glyph_coverage_value coverage glyph) [
  | some coverage_index ↦ checked_at entries coverage_index >>= λ entry. ok (some entry)
  | none ↦ ok none
]

-- The first subtable that has an answer.
unfoldable pub first_apply :
    {S A : Type 0} → (S → Outcome ParseError (Option A)) → List S → Outcome ParseError (Option A)
first_apply apply [] = ok none
first_apply apply (s ∷ subtables) =
    apply s >>= λ found. elim found [ some a ↦ ok (some a) | none ↦ first_apply apply subtables ]

abbrev pub vert : ℕ
vert = 0x76657274

abbrev pub vrt2 : ℕ
vrt2 = 0x76727432

module _ {T : Type 0} where
  unfoldable pub singlesubst : List SingleSubst → ℕ → RawGlyph T → Outcome ParseError (RawGlyph T)
  unfolding first_apply
  singlesubst subtables subst_tag glyph =
      first_apply (λ s. single_apply_glyph s glyph.glyph_index) subtables >>= λ found. elim found [
        | none ↦ ok glyph
        | some output_glyph ↦ ok (record glyph {
          glyph_index = output_glyph;
          glyph_origin = direct;
          is_vert_alt =
              if (subst_tag == vert) || (subst_tag == vrt2) then true else glyph.is_vert_alt;
        })
      ]

  unfoldable pub alternatesubst :
      List AlternateSubst → ℕ → RawGlyph T → Outcome ParseError (RawGlyph T)
  unfolding first_apply
  alternatesubst subtables alternate glyph =
      first_apply (λ s. entry_of s.coverage s.alternatesets glyph.glyph_index) subtables
      >>= λ found. elim found [
        | none ↦ ok glyph
        | some alternate_glyphs ↦
            if ltb alternate (length alternate_glyphs)
            then (at alternate_glyphs alternate >>= λ new.
                ok (record glyph { glyph_index = new; glyph_origin = direct }))
            else ok glyph
      ]

  abbrev pub insert_at : List (RawGlyph T) → ℕ → RawGlyph T → List (RawGlyph T)
  insert_at xs zero y = y ∷ xs
  insert_at [] (suc i) y = []
  insert_at (x ∷ xs) (suc i) y = x ∷ insert_at xs i y

  -- `Vec::insert`
  abbrev pub vec_insert :
      List (RawGlyph T) → ℕ → RawGlyph T → Outcome ParseError (List (RawGlyph T))
  vec_insert xs i y = if leb i (length xs) then ok (insert_at xs i y) else panic

  abbrev pub remove_at : List (RawGlyph T) → ℕ → List (RawGlyph T)
  remove_at [] i = []
  remove_at (x ∷ xs) zero = xs
  remove_at (x ∷ xs) (suc i) = x ∷ remove_at xs i

  -- `Vec::remove`, without the glyph that it returns
  abbrev pub vec_remove : List (RawGlyph T) → ℕ → Outcome ParseError (List (RawGlyph T))
  vec_remove xs i = if ltb i (length xs) then ok (remove_at xs i) else panic

  -- The glyph that is inserted behind the first of a sequence.
  abbrev pub duplicate : RawGlyph T → ℕ → RawGlyph T
  duplicate g output_glyph_index = record {
    unicodes = g.unicodes;
    glyph_index = output_glyph_index;
    liga_component_pos = 0;
    glyph_origin = direct;
    small_caps = g.small_caps;
    multi_subst_dup = true;
    is_vert_alt = g.is_vert_alt;
    fake_bold = g.fake_bold;
    fake_italic = g.fake_italic;
    variation = g.variation;
    extra_data = g.extra_data;
  }
