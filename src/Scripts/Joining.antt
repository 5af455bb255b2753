-- ===== src/Scripts/Joining.antt =====
-- src/scripts/arabic.rs and syriac.rs, step 2: the loop over the indices of the glyphs that sets the
-- feature tags by the joining types. The two loops differ only in the tag of a glyph that joins the
-- one before it, `final_tag`.
pub mod Zipper
pub mod Forms
pub mod Law
pub mod Letters
use allsorts.Base.{
  ℕ, zero, suc, ◌+◌, ◌-◌, ◌==◌, ◌&&◌, not, Bool, true, false, if◌then◌else◌, List, [], ◌∷◌, Option,
  none, some, length,
}
use allsorts.Context.{at}
use allsorts.Error.{Outcome, ok, ParseError, ◌>>=◌}

abbrev pub isol : ℕ
isol = 0x69736f6c

abbrev pub init : ℕ
init = 0x696e6974

abbrev pub medi : ℕ
medi = 0x6d656469

abbrev pub fina : ℕ
fina = 0x66696e61

-- `glyphs[i] = ...`, at an index that is in range
abbrev pub set_at {ℓ} : {A : Type ℓ} → List A → ℕ → A → List A
set_at [] i y = []
set_at (x ∷ xs) zero y = y ∷ xs
set_at (x ∷ xs) (suc i) y = x ∷ set_at xs i y

-- `iter().position(..)`
abbrev pub position {ℓ} : {A : Type ℓ} → (A → Bool) → List A → Option ℕ
position test [] = none
position test (x ∷ xs) =
    if test x then some 0 else elim (position test xs) [ none ↦ none | some i ↦ some (suc i) ]

abbrev pub unwrap_or : Option ℕ → ℕ → ℕ
unwrap_or none d = d
unwrap_or (some i) d = i

-- What the loop asks of a glyph.
pub record JoiningGlyph (G : Type 0) : Type 0 where
  pub is_transparent : G → Bool
  pub is_left_joining : G → Bool
  pub is_right_joining : G → Bool
  pub feature_tag : G → ℕ
  pub set_feature_tag : ℕ → G → G
  pub final_tag : G → ℕ

module _ {G : Type 0} (j : JoiningGlyph G) where
  -- `glyphs[i].set_feature_tag(tag)`
  abbrev pub set_tag_at : List G → ℕ → ℕ → Outcome ParseError (List G)
  set_tag_at glyphs i tag = at glyphs i >>= λ g. ok (set_at glyphs i (j.set_feature_tag tag g))

  unfoldable pub advance_previous : List G → ℕ → Outcome ParseError (List G)
  advance_previous glyphs previous_i = at glyphs previous_i >>= λ g.
      if j.feature_tag g == isol
      then set_tag_at glyphs previous_i init
      else if j.feature_tag g == fina
      then set_tag_at glyphs previous_i medi
      else ok glyphs

  -- `glyphs[previous_i].is_left_joining() && glyphs[i].is_right_joining()`
  unfoldable pub joins : List G → ℕ → ℕ → Outcome ParseError Bool
  joins glyphs previous_i i = at glyphs previous_i >>= λ p. elim (j.is_left_joining p) [
    | false ↦ ok false
    | true ↦ at glyphs i >>= λ g. ok (j.is_right_joining g)
  ]

  unfoldable pub join_pair : List G → ℕ → ℕ → Outcome ParseError (List G)
  unfolding advance_previous joins
  join_pair glyphs previous_i i = joins glyphs previous_i i >>= λ joined. elim joined [
    | false ↦ ok glyphs
    | true ↦ at glyphs i >>= λ g.
        set_tag_at glyphs i (j.final_tag g) >>= λ tagged. advance_previous tagged previous_i
  ]

  -- `for i in (previous_i + 1)..glyphs.len()`, with the number of the indices that are left.
  unfoldable pub join_loop : ℕ → List G → ℕ → ℕ → Outcome ParseError (List G)
  unfolding join_pair
  join_loop zero glyphs previous_i i = ok glyphs
  join_loop (suc left) glyphs previous_i i = at glyphs i >>= λ g. elim (j.is_transparent g) [
    | true ↦ join_loop left glyphs previous_i (i + 1)
    | false ↦ join_pair glyphs previous_i i >>= λ joined. join_loop left joined i (i + 1)
  ]

  unfoldable pub join_letters : List G → Outcome ParseError (List G)
  unfolding join_loop
  join_letters glyphs =
      let previous_i = unwrap_or (position (λ g. not (j.is_transparent g)) glyphs) 0 in
      join_loop (length glyphs - (previous_i + 1)) glyphs previous_i (previous_i + 1)
