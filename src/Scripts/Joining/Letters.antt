-- ===== src/Scripts/Joining/Letters.antt =====
-- The joining of all the letters of a run.
use allsorts.Base.{
  ℕ, suc, ◌+◌, ◌-◌, ◌≡◌, refl, ap, sym, ◌∙◌, arith, not, Bool, true, false, List, [], ◌∷◌, ◌++◌,
  length, All, Bool-cases, inl, inr, length-append, none, some,
}
use mathlib.Core.List.{append_assoc}
use allsorts.Error.{ok}
use allsorts.Context.{at}
use allsorts.Scripts.Joining.{JoiningGlyph, isol, join_loop, join_letters, position}
use allsorts.Scripts.Joining.Forms.{shaped, IsLawful}
use allsorts.Scripts.Joining.Law.{loop_lem}
use allsorts.Scripts.Joining.Zipper.{at-length}

module _ {G : Type 0} (j : JoiningGlyph G) where
  abbrev IsTransparent : G → Type 0
  IsTransparent g = j.is_transparent g ≡ true

  -- A list of transparent glyphs, or the first glyph that is not.
  data Starts : List G → Type 0 where
    all_transparent : (gs : List G) → All IsTransparent gs → Starts gs
    letter :
        (before : List G) (g : G) (rest : List G)
        → All IsTransparent before
        → j.is_transparent g ≡ false
        → Starts (before ++ g ∷ rest)

  push : (g : G) {gs : List G} → IsTransparent g → Starts gs → Starts (g ∷ gs)
  push g a (all_transparent gs h) = all_transparent (g ∷ gs) (a, h)
  push g a (letter before x rest h b) = letter (g ∷ before) x rest (a, h) b

  starts : (gs : List G) → Starts gs
  starts [] = all_transparent [] tt
  starts (g ∷ gs) = elim (Bool-cases (j.is_transparent g)) [
    | inl a ↦ push g a (starts gs)
    | inr a ↦ letter [] g gs tt a
  ]

  position-letter :
      (before : List G) (g : G) (rest : List G)
      → All IsTransparent before
      → j.is_transparent g ≡ false
      → position (λ x. not (j.is_transparent x)) (before ++ g ∷ rest) ≡ some (length before)
  position-letter [] g rest h a = rw a refl
  position-letter (b ∷ before) g rest (h, hs) a = rw (h, position-letter before g rest hs a) refl

  position-none :
      (gs : List G) → All IsTransparent gs → position (λ x. not (j.is_transparent x)) gs ≡ none
  position-none [] h = refl
  position-none (g ∷ gs) (h, hs) = rw (h, position-none gs hs) refl

  shaped-letter :
      (left : Bool) (before rest : List G)
      → All IsTransparent before
      → shaped j left (before ++ rest) ≡ before ++ shaped j left rest
  shaped-letter left [] rest h = refl
  shaped-letter left (b ∷ before) rest (h, hs) =
      rw h (ap (λ l. b ∷ l) (shaped-letter left before rest hs))

  shaped-transparent : (left : Bool) (gs : List G) → All IsTransparent gs → shaped j left gs ≡ gs
  shaped-transparent left [] h = refl
  shaped-transparent left (g ∷ gs) (h, hs) = rw h (ap (λ l. g ∷ l) (shaped-transparent left gs hs))

  All-behind :
      (xs ys : List G)
      → All (λ g. j.feature_tag g ≡ isol) (xs ++ ys)
      → All (λ g. j.feature_tag g ≡ isol) ys
  All-behind [] ys h = h
  All-behind (x ∷ xs) ys (h, hs) = All-behind xs ys hs

  idle :
      (done rest : List G) (previous i : ℕ)
      → length done ≡ i
      → All IsTransparent rest
      → join_loop j (length rest) (done ++ rest) previous i ≡ ok (done ++ rest)
  unfolding join_loop
  idle done [] previous i e h = refl
  idle done (g ∷ rest) previous i e (h, hs) =
      let there : at (done ++ g ∷ rest) i ≡ ok g =
        ap (at (done ++ g ∷ rest)) (sym e) ∙ at-length done g rest in
      let size = length-append done (g ∷ []) in
      rw (there, h)
        (ap (λ l. join_loop j (length rest) l previous (i + 1))
            (sym (append_assoc done (g ∷ []) rest))
          ∙ idle (done ++ g ∷ []) rest previous (i + 1) (omega (arith, size, e)) hs
          ∙ ap ok (append_assoc done (g ∷ []) rest))

  module _ (law : IsLawful j) where
    letters_lem :
        (gs : List G)
        → Starts gs
        → All (λ g. j.feature_tag g ≡ isol) gs
        → join_letters j gs ≡ ok (shaped j false gs)
    unfolding join_letters
    letters_lem gs (all_transparent [] h) tags = refl
    letters_lem gs (all_transparent (g ∷ rest) h) tags =
        let count : suc (length rest) - (0 + 1) ≡ length rest = omega arith in
        rw (position-none (g ∷ rest) h, count)
          (idle (g ∷ []) rest 0 1 refl h.1 ∙ ap ok (sym (shaped-transparent false (g ∷ rest) h)))
    letters_lem gs (letter before g rest h a) tags =
        let (tag, tags') = All-behind before (g ∷ rest) tags in
        let n = length before in
        let count : length (before ++ g ∷ rest) - (n + 1) ≡ length rest =
          omega (arith, length-append before (g ∷ rest)) in
        let same : j.set_feature_tag isol g ≡ g =
          ap (λ t. j.set_feature_tag t g) (sym tag) ∙ law.set-same g in
        let step : n + 1 ≡ n + suc 0 = omega arith in
        rw (position-letter before g rest h a, count, shaped-letter false before (g ∷ rest) h, a)
          (ap (λ x. join_loop j (length rest) (before ++ x ∷ rest) n (n + 1)) (sym same)
            ∙ loop_lem j law rest tags' before [] g false (n + 1) (sym step))

    -- In a run of glyphs that all carry the isolated form, `join_letters` ends, without a panic, and
    -- gives each letter the form that the nearest letters on both sides ask for: transparent glyphs
    -- stay as they are and are looked through.
    pub join_letters-shaped :
        (glyphs : List G)
        → All (λ g. j.feature_tag g ≡ isol) glyphs
        → join_letters j glyphs ≡ ok (shaped j false glyphs)
    join_letters-shaped glyphs tags = letters_lem glyphs (starts glyphs) tags
