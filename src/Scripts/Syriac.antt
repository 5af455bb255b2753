-- ===== src/Scripts/Syriac.antt =====
-- src/scripts/syriac.rs: the glyphs of Syriac, their joining, and the form of an alaph that ends a
-- word. The joining types and groups are those of the package `unicode_joining_type`.
pub mod Rule
pub mod Alaph
use allsorts.Base.{
  ℕ, zero, suc, ◌-◌, ◌==◌, ◌||◌, not, Bool, true, false, if◌then◌else◌, ◌≡◌, refl, List, [], ◌∷◌,
  map, All, Option, none, some,
}
use allsorts.Context.{at}
use allsorts.Error.{Outcome, ok, ParseError, ◌>>=◌}
use allsorts.Gsub.Glyph.{RawGlyph, GlyphOrigin, char, direct, with_data}
use allsorts.Scripts.Joining.{JoiningGlyph, isol, fina, join_letters, set_tag_at, unwrap_or}
use allsorts.Scripts.Joining.Forms.{IsLawful, shaped}
use allsorts.Scripts.Joining.Letters.{join_letters-shaped}
use allsorts.Scripts.Arabic.{JoiningTypes}

abbrev pub med2 : ℕ
med2 = 0x6d656432

abbrev pub fin2 : ℕ
fin2 = 0x66696e32

abbrev pub fin3 : ℕ
fin3 = 0x66696e33

pub record JoiningGroups (K : Type 0) : Type 0 where
  pub same_group : K → K → Bool
  pub alaph : K
  pub dalath_rish : K
  pub no_joining_group : K
  pub get_joining_group : ℕ → K

pub record SyriacData (J K : Type 0) : Type 0 where
  pub joining_group : K
  pub joining_type : J
  pub feature_tag : ℕ

-- `iter().rposition(..)`
abbrev pub rposition {ℓ} : {A : Type ℓ} → (A → Bool) → List A → Option ℕ
rposition test [] = none
rposition test (x ∷ xs) = elim (rposition test xs) [
  | some i ↦ some (suc i)
  | none ↦ if test x then some 0 else none
]

module _ {J K : Type 0} (t : JoiningTypes J) (k : JoiningGroups K) where
  abbrev pub is_alaph : RawGlyph (SyriacData J K) → Bool
  is_alaph g = k.same_group g.extra_data.joining_group k.alaph

  abbrev pub is_dalath_rish : RawGlyph (SyriacData J K) → Bool
  is_dalath_rish g = k.same_group g.extra_data.joining_group k.dalath_rish

  abbrev pub is_transparent : RawGlyph (SyriacData J K) → Bool
  is_transparent g = t.same_type g.extra_data.joining_type t.transparent || g.multi_subst_dup

  abbrev pub is_non_joining : RawGlyph (SyriacData J K) → Bool
  is_non_joining g = t.same_type g.extra_data.joining_type t.non_joining

  abbrev pub is_left_joining : RawGlyph (SyriacData J K) → Bool
  is_left_joining g =
      t.same_type g.extra_data.joining_type t.left_joining
      || (t.same_type g.extra_data.joining_type t.dual_joining
          || t.same_type g.extra_data.joining_type t.join_causing)

  abbrev pub is_right_joining : RawGlyph (SyriacData J K) → Bool
  is_right_joining g =
      t.same_type g.extra_data.joining_type t.right_joining
      || (t.same_type g.extra_data.joining_type t.dual_joining
          || t.same_type g.extra_data.joining_type t.join_causing)

  abbrev pub set_feature_tag : ℕ → RawGlyph (SyriacData J K) → RawGlyph (SyriacData J K)
  set_feature_tag tag g =
      with_data
        (record {
          joining_group = g.extra_data.joining_group;
          joining_type = g.extra_data.joining_type;
          feature_tag = tag;
        })
        g

  abbrev joining_type_of : GlyphOrigin → J
  joining_type_of (char c) = t.get_joining_type c
  joining_type_of direct = t.non_joining

  abbrev joining_group_of : GlyphOrigin → K
  joining_group_of (char c) = k.get_joining_group c
  joining_group_of direct = k.no_joining_group

  -- `From<&RawGlyph<()>> for SyriacGlyph`
  abbrev pub syriac_of : RawGlyph (Unit {0}) → RawGlyph (SyriacData J K)
  syriac_of g =
      with_data
        (record {
          joining_group = joining_group_of g.glyph_origin;
          joining_type = joining_type_of g.glyph_origin;
          feature_tag = isol;
        })
        g

  -- `From<&SyriacGlyph> for RawGlyph<()>`
  abbrev pub raw_of : RawGlyph (SyriacData J K) → RawGlyph (Unit {0})
  raw_of g = with_data tt g

  abbrev pub syriac : JoiningGlyph (RawGlyph (SyriacData J K))
  syriac = record {
    is_transparent = is_transparent;
    is_left_joining = is_left_joining;
    is_right_joining = is_right_joining;
    feature_tag = λ g. g.extra_data.feature_tag;
    set_feature_tag = set_feature_tag;
    final_tag = λ g. if is_alaph g then med2 else fina;
  }

  -- `!(g.is_transparent() || g.is_non_joining())`
  abbrev pub is_joining : RawGlyph (SyriacData J K) → Bool
  is_joining g = not (is_transparent g || is_non_joining g)

  -- The tag of an alaph that ends a word, by the glyph before it.
  abbrev pub alaph_tag : RawGlyph (SyriacData J K) → ℕ
  alaph_tag p = if is_left_joining p then fina else if is_dalath_rish p then fin3 else fin2

  -- The end of step 2.
  unfoldable pub join_alaph :
      List (RawGlyph (SyriacData J K)) → Outcome ParseError (List (RawGlyph (SyriacData J K)))
  join_alaph glyphs =
      let last_i = unwrap_or (rposition is_joining glyphs) 0 in
      if last_i == 0
      then ok glyphs
      else at glyphs last_i >>= λ last.
          if is_alaph last
          then (at glyphs (last_i - 1) >>= λ p. set_tag_at syriac glyphs last_i (alaph_tag p))
          else ok glyphs

  -- Step 2 of `gsub_apply_syriac`
  unfoldable pub join_syriac :
      List (RawGlyph (SyriacData J K)) → Outcome ParseError (List (RawGlyph (SyriacData J K)))
  unfolding join_alaph
  join_syriac glyphs = join_letters syriac glyphs >>= λ joined. join_alaph joined
