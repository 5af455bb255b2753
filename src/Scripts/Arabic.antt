-- ===== src/Scripts/Arabic.antt =====
-- src/scripts/arabic.rs: the glyphs of Arabic and their joining. The joining types are those of the
-- package `unicode_joining_type`, which is a parameter: a type with a test of equality, the types that
-- the code names, and the type of a character.
use allsorts.Base.{ℕ, ◌||◌, Bool, ◌≡◌, refl, List, [], ◌∷◌, map, All}
use allsorts.Error.{ok}
use allsorts.Gsub.Glyph.{RawGlyph, GlyphOrigin, char, direct, with_data}
use allsorts.Scripts.Joining.{JoiningGlyph, isol, fina, join_letters}
use allsorts.Scripts.Joining.Forms.{IsLawful, shaped}
use allsorts.Scripts.Joining.Letters.{join_letters-shaped}

pub record JoiningTypes (J : Type 0) : Type 0 where
  pub same_type : J → J → Bool
  pub dual_joining : J
  pub join_causing : J
  pub left_joining : J
  pub right_joining : J
  pub non_joining : J
  pub transparent : J
  pub get_joining_type : ℕ → J

pub record ArabicData (J : Type 0) : Type 0 where
  pub joining_type : J
  pub feature_tag : ℕ

module _ {J : Type 0} (t : JoiningTypes J) where
  abbrev pub is_transparent : RawGlyph (ArabicData J) → Bool
  is_transparent g = t.same_type g.extra_data.joining_type t.transparent || g.multi_subst_dup

  abbrev pub is_left_joining : RawGlyph (ArabicData J) → Bool
  is_left_joining g =
      t.same_type g.extra_data.joining_type t.left_joining
      || (t.same_type g.extra_data.joining_type t.dual_joining
          || t.same_type g.extra_data.joining_type t.join_causing)

  abbrev pub is_right_joining : RawGlyph (ArabicData J) → Bool
  is_right_joining g =
      t.same_type g.extra_data.joining_type t.right_joining
      || (t.same_type g.extra_data.joining_type t.dual_joining
          || t.same_type g.extra_data.joining_type t.join_causing)

  abbrev pub set_feature_tag : ℕ → RawGlyph (ArabicData J) → RawGlyph (ArabicData J)
  set_feature_tag tag g =
      with_data (record { joining_type = g.extra_data.joining_type; feature_tag = tag }) g

  abbrev joining_type_of : GlyphOrigin → J
  joining_type_of (char c) = t.get_joining_type c
  joining_type_of direct = t.non_joining

  -- `From<&RawGlyph<()>> for ArabicGlyph`
  abbrev pub arabic_of : RawGlyph (Unit {0}) → RawGlyph (ArabicData J)
  arabic_of g =
      with_data (record { joining_type = joining_type_of g.glyph_origin; feature_tag = isol }) g

  -- `From<&ArabicGlyph> for RawGlyph<()>`
  abbrev pub raw_of : RawGlyph (ArabicData J) → RawGlyph (Unit {0})
  raw_of g = with_data tt g

  abbrev pub arabic : JoiningGlyph (RawGlyph (ArabicData J))
  arabic = record {
    is_transparent = is_transparent;
    is_left_joining = is_left_joining;
    is_right_joining = is_right_joining;
    feature_tag = λ g. g.extra_data.feature_tag;
    set_feature_tag = set_feature_tag;
    final_tag = λ g. fina;
  }

  arabic-IsLawful : IsLawful arabic
  arabic-IsLawful = record {
    transparent-set = λ tag g. refl;
    left-set = λ tag g. refl;
    tag-set = λ tag g. refl;
    set-set = λ tag old g. refl;
    set-same = λ g. refl;
  }

  isolated :
      (gs : List (RawGlyph (Unit {0})))
      → All (λ g. g.extra_data.feature_tag ≡ isol) (map arabic_of gs)
  isolated [] = tt
  isolated (g ∷ gs) = (refl, isolated gs)

  -- For every run of plain glyphs and whatever joining types their characters have, `join_letters`
  -- on their Arabic glyphs ends, without a panic, and gives each letter the form that the nearest
  -- letters on both sides ask for; transparent glyphs stay as they are and are looked through.
  pub arabic_letters :
      (glyphs : List (RawGlyph (Unit {0})))
      → join_letters arabic (map arabic_of glyphs)
        ≡ ok (shaped arabic Bool.false (map arabic_of glyphs))
  arabic_letters glyphs =
      join_letters-shaped arabic arabic-IsLawful (map arabic_of glyphs) (isolated glyphs)
