-- ===== src/Scripts/Joining/Forms.antt =====
-- The form of each letter, read off its neighbours: a description of the joining without indices.
use allsorts.Base.{ℕ, ◌==◌, ◌&&◌, ◌≡◌, Bool, false, if◌then◌else◌, List, [], ◌∷◌}
use allsorts.Scripts.Joining.{JoiningGlyph, isol, init, medi, fina}

-- The tag of a letter once the letter behind it joins it.
abbrev pub joined_tag : ℕ → ℕ
joined_tag tag = if tag == isol then init else if tag == fina then medi else tag

module _ {G : Type 0} (j : JoiningGlyph G) where
  -- The tag of a letter by whether it joins the one before it and the one behind it.
  abbrev pub form : G → Bool → Bool → ℕ
  form g before behind =
      let tag = if before then j.final_tag g else isol in if behind then joined_tag tag else tag

  abbrev pub with_form : G → Bool → Bool → G
  with_form g before behind = j.set_feature_tag (form g before behind) g

  -- Whether the first letter that is not transparent can join one before it.
  abbrev pub next_joins : List G → Bool
  next_joins [] = false
  next_joins (g ∷ gs) = if j.is_transparent g then next_joins gs else j.is_right_joining g

  -- The letters behind one that does, or does not, join to its left; transparent glyphs stay as they
  -- are and are passed over.
  abbrev pub shaped : Bool → List G → List G
  shaped left [] = []
  shaped left (g ∷ gs) =
      if j.is_transparent g
      then g ∷ shaped left gs
      else with_form g (left && j.is_right_joining g) (j.is_left_joining g && next_joins gs)
        ∷ shaped (j.is_left_joining g) gs

  -- A tag that is set changes nothing else about a glyph.
  pub record IsLawful : Type 0 where
    pub transparent-set :
        (tag : ℕ) (g : G) → j.is_transparent (j.set_feature_tag tag g) ≡ j.is_transparent g
    pub left-set :
        (tag : ℕ) (g : G) → j.is_left_joining (j.set_feature_tag tag g) ≡ j.is_left_joining g
    pub tag-set : (tag : ℕ) (g : G) → j.feature_tag (j.set_feature_tag tag g) ≡ tag
    pub set-set :
        (tag old : ℕ) (g : G)
        → j.set_feature_tag tag (j.set_feature_tag old g) ≡ j.set_feature_tag tag g
    pub set-same : (g : G) → j.set_feature_tag (j.feature_tag g) g ≡ g
