-- ===== src/Scripts/Syriac/Alaph.antt =====
-- The end of a word in Syriac: which glyph the rule for a final alaph changes, and how.
use allsorts.Base.{
  suc, ◌+◌, ◌-◌, ◌==◌, ◌≡◌, refl, ap, sym, ◌∙◌, arith, Bool, true, false, if◌then◌else◌, List, [],
  ◌∷◌, ◌++◌, length, length-append, none, some, All, map, Bool-cases, inl, inr, ◌⊎◌,
}
use mathlib.Core.List.{append_assoc}
use allsorts.Error.{ok}
use allsorts.Gsub.Glyph.{RawGlyph}
use allsorts.Scripts.Joining.{isol}
use allsorts.Scripts.Joining.Forms.{IsLawful, shaped}
use allsorts.Scripts.Joining.Letters.{join_letters-shaped}
use allsorts.Scripts.Joining.Zipper.{at-length, at-behind, set_at-behind}
use allsorts.Scripts.Arabic.{JoiningTypes}
use allsorts.Scripts.Syriac.Rule.{
  IsPassed, IsLetter, AlaphTag, joined, behind_dalath_rish, apart, retagged, AlaphRule, no_letter,
  at_start, no_alaph, alaph,
}
use allsorts.Scripts.Syriac.{
  JoiningGroups, SyriacData, rposition, is_joining, is_alaph, is_dalath_rish, alaph_tag,
  set_feature_tag, syriac, syriac_of, join_alaph, join_syriac,
}

rposition-last :
    {A : Type 0} (test : A → Bool) (before : List A) (x : A) (rest : List A)
    → test x ≡ true
    → rposition test rest ≡ none
    → rposition test (before ++ x ∷ rest) ≡ some (length before)
rposition-last test [] x rest h n = rw (n, h) refl
rposition-last test (b ∷ before) x rest h n = rw (rposition-last test before x rest h n) refl

-- A list is empty or has a last element.
data LastOf {A : Type 0} (xs : List A) : Type 0 where
  only : xs ≡ [] → LastOf xs
  behind : (front : List A) (x : A) → xs ≡ front ++ x ∷ [] → LastOf xs

last_of : {A : Type 0} (xs : List A) → LastOf xs
last_of [] = only refl
last_of (x ∷ xs) = elim (last_of xs) [
  | only e ↦ behind [] x (ap (λ ys. x ∷ ys) e)
  | behind front y e ↦ behind (x ∷ front) y (ap (λ ys. x ∷ ys) e)
]

module _ {J K : Type 0} (t : JoiningTypes J) (k : JoiningGroups K) where
  syriac-IsLawful : IsLawful (syriac t k)
  syriac-IsLawful = record {
    transparent-set = λ tag g. refl;
    left-set = λ tag g. refl;
    tag-set = λ tag g. refl;
    set-set = λ tag old g. refl;
    set-same = λ g. refl;
  }

  isolated :
      (gs : List (RawGlyph (Unit {0})))
      → All (λ g. g.extra_data.feature_tag ≡ isol) (map (syriac_of t k) gs)
  isolated [] = tt
  isolated (g ∷ gs) = (refl, isolated gs)

  -- An alaph behind a glyph, with the model's tests
  join_alaph-last :
      (before : List (RawGlyph (SyriacData J K))) (p g : RawGlyph (SyriacData J K))
      (rest : List (RawGlyph (SyriacData J K)))
      → is_joining t k g ≡ true
      → rposition (is_joining t k) rest ≡ none
      → join_alaph t k (before ++ p ∷ (g ∷ rest))
        ≡ ok (
            before
            ++ p ∷ ((if is_alaph t k g then set_feature_tag t k (alaph_tag t k p) g else g) ∷ rest))
  unfolding join_alaph
  join_alaph-last before p g rest h n =
      let gs = before ++ p ∷ (g ∷ rest) in
      let i = length before + 1 in
      let e : length before + suc 0 ≡ i = omega arith in
      let found : rposition (is_joining t k) gs ≡ some i =
        ap (rposition (is_joining t k)) (sym (append_assoc before (p ∷ []) (g ∷ rest)))
        ∙ rposition-last (is_joining t k) (before ++ p ∷ []) g rest h n
        ∙ ap some (length-append before (p ∷ [])) in
      let back : i - 1 ≡ length before = omega arith in
      let away : (i == 0) ≡ false = ground arith in
      rw (found, away, at-behind before p [] g rest i e)
        (elim (Bool-cases (is_alaph t k g)) [
          | inr a ↦ rw a refl
          | inl a ↦
              rw
                (
                  a,
                  back,
                  at-length before p (g ∷ rest),
                  set_at-behind before p [] g rest i e (set_feature_tag t k (alaph_tag t k p) g),
                )
                refl
        ])

  is_joining-cases :
      (g : RawGlyph (SyriacData J K))
      → (IsLetter t k g × (is_joining t k g ≡ true)) ⊎ (IsPassed t k g × (is_joining t k g ≡ false))
  is_joining-cases g = elim (Bool-cases (t.same_type g.extra_data.joining_type t.transparent)) [
    | inl a ↦ inr (inl a, ground (arith, a))
    | inr a ↦ elim (Bool-cases g.multi_subst_dup) [
      | inl b ↦ inr (inr (inl b), ground (arith, a, b))
      | inr b ↦ elim (Bool-cases (t.same_type g.extra_data.joining_type t.non_joining)) [
        | inl c ↦ inr (inr (inr c), ground (arith, a, b, c))
        | inr c ↦ inl ((a, b, c), ground (arith, a, b, c))
      ]
    ]
  ]

  -- A run of glyphs that are passed over, or one with a last letter
  data LastLetter (gs : List (RawGlyph (SyriacData J K))) : Type 0 where
    none_there : All (IsPassed t k) gs → rposition (is_joining t k) gs ≡ none → LastLetter gs
    letter_at :
        (before : List (RawGlyph (SyriacData J K))) (g : RawGlyph (SyriacData J K))
        (rest : List (RawGlyph (SyriacData J K)))
        → IsLetter t k g
        → is_joining t k g ≡ true
        → All (IsPassed t k) rest
        → rposition (is_joining t k) rest ≡ none
        → gs ≡ before ++ g ∷ rest
        → LastLetter gs

  behind_first :
      (g : RawGlyph (SyriacData J K)) (gs : List (RawGlyph (SyriacData J K)))
      → LastLetter gs
      → LastLetter (g ∷ gs)
  behind_first g gs (none_there h n) = elim (is_joining-cases g) [
    | inl (l, e) ↦ letter_at [] g gs l e h n refl
    | inr (q, e) ↦ none_there (q, h) (rw (n, e) refl)
  ]
  behind_first g gs (letter_at before h rest l e q n f) =
      letter_at (g ∷ before) h rest l e q n (ap (λ xs. g ∷ xs) f)

  last_letter : (gs : List (RawGlyph (SyriacData J K))) → LastLetter gs
  last_letter [] = none_there tt refl
  last_letter (g ∷ gs) = behind_first g gs (last_letter gs)

  alaph_tag_lem : (p : RawGlyph (SyriacData J K)) → AlaphTag t k p (alaph_tag t k p)
  alaph_tag_lem p = elim (Bool-cases (t.same_type p.extra_data.joining_type t.left_joining)) [
    | inl a ↦ joined (inl a) (ground (arith, a))
    | inr a ↦ elim (Bool-cases (t.same_type p.extra_data.joining_type t.dual_joining)) [
      | inl b ↦ joined (inr (inl b)) (ground (arith, a, b))
      | inr b ↦ elim (Bool-cases (t.same_type p.extra_data.joining_type t.join_causing)) [
        | inl c ↦ joined (inr (inr c)) (ground (arith, a, b, c))
        | inr c ↦ elim (Bool-cases (is_dalath_rish t k p)) [
          | inl d ↦ behind_dalath_rish (a, b, c) d (ground (arith, a, b, c, d))
          | inr d ↦ apart (a, b, c) d (ground (arith, a, b, c, d))
        ]
      ]
    ]
  ]

  abbrev Ruled : List (RawGlyph (SyriacData J K)) → Type 0
  Ruled gs =
      (gs' : List (RawGlyph (SyriacData J K))) × (join_alaph t k gs ≡ ok gs') × AlaphRule t k gs gs'

  -- The last letter has a glyph before it.
  behind_Ruled :
      (before : List (RawGlyph (SyriacData J K))) (p g : RawGlyph (SyriacData J K))
      (rest : List (RawGlyph (SyriacData J K)))
      → IsLetter t k g
      → is_joining t k g ≡ true
      → All (IsPassed t k) rest
      → rposition (is_joining t k) rest ≡ none
      → Ruled (before ++ p ∷ (g ∷ rest))
  behind_Ruled before p g rest l e q n = elim (Bool-cases (is_alaph t k g)) [
    | inl a ↦ (
      before ++ p ∷ (retagged t k (alaph_tag t k p) g ∷ rest),
      join_alaph-last before p g rest e n ∙ rw a refl,
      alaph before p g rest (alaph_tag t k p) l q a (alaph_tag_lem p) refl refl,
    )
    | inr a ↦ (
      before ++ p ∷ (g ∷ rest),
      join_alaph-last before p g rest e n ∙ rw a refl,
      no_alaph (before ++ p ∷ []) g rest l q a (sym (append_assoc before (p ∷ []) (g ∷ rest))) refl,
    )
  ]

  letter_Ruled :
      (before : List (RawGlyph (SyriacData J K))) (g : RawGlyph (SyriacData J K))
      (rest : List (RawGlyph (SyriacData J K)))
      → IsLetter t k g
      → is_joining t k g ≡ true
      → All (IsPassed t k) rest
      → rposition (is_joining t k) rest ≡ none
      → LastOf before
      → Ruled (before ++ g ∷ rest)
  unfolding join_alaph
  letter_Ruled before g rest l e q n (only f) =
      rw f (g ∷ rest, rw (n, e) refl, at_start g rest l q refl refl)
  letter_Ruled before g rest l e q n (behind front p f) =
      rw (f, append_assoc front (p ∷ []) (g ∷ rest)) (behind_Ruled front p g rest l e q n)

  ruled : (gs : List (RawGlyph (SyriacData J K))) → LastLetter gs → Ruled gs
  unfolding join_alaph
  ruled gs (none_there h n) = (gs, rw n refl, no_letter h refl)
  ruled gs (letter_at before g rest l e q n f) =
      rw f (letter_Ruled before g rest l e q n (last_of before))

  -- For all joining types and groups and every run of glyphs, `join_alaph` ends, without a panic,
  -- in the run that the rule for an alaph at the end of a word gives. The last letter is the last
  -- glyph that is neither transparent, nor a copy of a multiple substitution, nor non-joining.
  -- Where there is none, where it is the first glyph, or where it is no alaph, the run stays as it
  -- is. Where it is an alaph behind a glyph, the tag of this alaph alone changes: to `fina` where
  -- the type of the glyph directly before it joins to the left (left-joining, dual-joining or
  -- join-causing), else to `fin3` where that glyph is of the group of dalath and rish, and else to
  -- `fin2`.
  pub join_alaph-AlaphRule :
      (glyphs : List (RawGlyph (SyriacData J K)))
      → (gs' : List (RawGlyph (SyriacData J K))) × (join_alaph t k glyphs ≡ ok gs')
        × AlaphRule t k glyphs gs'
  join_alaph-AlaphRule glyphs = ruled glyphs (last_letter glyphs)

  -- For every run of plain glyphs, the joining of their Syriac glyphs ends as `join_alaph` does on the
  -- letters in the forms that their neighbours ask for: the first loop does not panic.
  join_syriac-shaped :
      (glyphs : List (RawGlyph (Unit {0})))
      → join_syriac t k (map (syriac_of t k) glyphs)
        ≡ join_alaph t k (shaped (syriac t k) false (map (syriac_of t k) glyphs))
  unfolding join_syriac
  join_syriac-shaped glyphs =
      rw
        (join_letters-shaped (syriac t k) syriac-IsLawful (map (syriac_of t k) glyphs)
          (isolated glyphs))
        refl
