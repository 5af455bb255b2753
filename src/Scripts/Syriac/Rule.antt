-- ===== src/Scripts/Syriac/Rule.antt =====
-- The rule for an alaph at the end of a Syriac word, stated on a run of glyphs without its indices,
-- by the joining types and groups of the glyphs and by the letters of the feature tags.
use allsorts.Base.{◌≡◌, Bool, true, false, ℕ, List, [], ◌∷◌, ◌++◌, All, ◌⊎◌}
use allsorts.Binary.Read.Values.{be_value}
use allsorts.Gsub.Glyph.{RawGlyph}
use allsorts.Scripts.Arabic.{JoiningTypes}
use allsorts.Scripts.Syriac.{JoiningGroups, SyriacData}

module _ {J K : Type 0} (t : JoiningTypes J) (k : JoiningGroups K) where
  abbrev pub TypeIs : J → Bool → RawGlyph (SyriacData J K) → Type 0
  TypeIs type b g = t.same_type g.extra_data.joining_type type ≡ b

  abbrev pub GroupIs : K → Bool → RawGlyph (SyriacData J K) → Type 0
  GroupIs group b g = k.same_group g.extra_data.joining_group group ≡ b

  -- Transparent, or a copy that a multiple substitution made, or of no joining type
  abbrev pub IsPassed : RawGlyph (SyriacData J K) → Type 0
  IsPassed g =
      TypeIs t.transparent true g ⊎ (g.multi_subst_dup ≡ true) ⊎ TypeIs t.non_joining true g

  abbrev pub IsLetter : RawGlyph (SyriacData J K) → Type 0
  IsLetter g =
      TypeIs t.transparent false g × (g.multi_subst_dup ≡ false) × TypeIs t.non_joining false g

  abbrev pub JoinsLeft : RawGlyph (SyriacData J K) → Type 0
  JoinsLeft g =
      TypeIs t.left_joining true g ⊎ TypeIs t.dual_joining true g ⊎ TypeIs t.join_causing true g

  abbrev pub StandsApart : RawGlyph (SyriacData J K) → Type 0
  StandsApart g =
      TypeIs t.left_joining false g × TypeIs t.dual_joining false g × TypeIs t.join_causing false g

  -- The tag of an alaph behind a glyph: `fina`, `fin3` or `fin2`.
  pub data AlaphTag (p : RawGlyph (SyriacData J K)) (tag : ℕ) : Type 0 where
    joined : JoinsLeft p → tag ≡ be_value (0x66 ∷ 0x69 ∷ 0x6e ∷ 0x61 ∷ []) → AlaphTag p tag
    behind_dalath_rish :
        StandsApart p
        → GroupIs k.dalath_rish true p
        → tag ≡ be_value (0x66 ∷ 0x69 ∷ 0x6e ∷ 0x33 ∷ [])
        → AlaphTag p tag
    apart :
        StandsApart p
        → GroupIs k.dalath_rish false p
        → tag ≡ be_value (0x66 ∷ 0x69 ∷ 0x6e ∷ 0x32 ∷ [])
        → AlaphTag p tag

  -- The same glyph with another tag
  abbrev pub retagged : ℕ → RawGlyph (SyriacData J K) → RawGlyph (SyriacData J K)
  retagged tag g = record g { extra_data = record g.extra_data { feature_tag = tag } }

  -- What becomes of a run: its last letter is looked at, and what the rule does not change stays.
  pub data AlaphRule (gs gs' : List (RawGlyph (SyriacData J K))) : Type 0 where
    no_letter : All IsPassed gs → gs' ≡ gs → AlaphRule gs gs'
    at_start :
        (g : RawGlyph (SyriacData J K)) (rest : List (RawGlyph (SyriacData J K)))
        → IsLetter g
        → All IsPassed rest
        → gs ≡ g ∷ rest
        → gs' ≡ gs
        → AlaphRule gs gs'
    no_alaph :
        (before : List (RawGlyph (SyriacData J K))) (g : RawGlyph (SyriacData J K))
        (rest : List (RawGlyph (SyriacData J K)))
        → IsLetter g
        → All IsPassed rest
        → GroupIs k.alaph false g
        → gs ≡ before ++ g ∷ rest
        → gs' ≡ gs
        → AlaphRule gs gs'
    alaph :
        (before : List (RawGlyph (SyriacData J K))) (p g : RawGlyph (SyriacData J K))
        (rest : List (RawGlyph (SyriacData J K))) (tag : ℕ)
        → IsLetter g
        → All IsPassed rest
        → GroupIs k.alaph true g
        → AlaphTag p tag
        → gs ≡ before ++ p ∷ (g ∷ rest)
        → gs' ≡ before ++ p ∷ (retagged tag g ∷ rest)
        → AlaphRule gs gs'
