-- ===== src/Gsub/Ligature/Apply.antt =====
-- src/layout.rs and src/gsub.rs: `Ligature::matches` and `Ligature::apply` together.
use allsorts.Base.{
  ℕ, suc, ◌+◌, ◌^◌, ◌≤◌, ◌<◌, ◌≡◌, refl, ap, sym, ◌∙◌, arith, Bool, true, false, List, [], ◌∷◌,
  ◌++◌, Option, length, map, drop, length-append, length-map, Bool-cases, inl, inr,
}
use mathlib.Core.Bool.{false≢true}
use allsorts.Context.{MatchType, by_id}
use allsorts.Context.Filter.{keeps, kept}
use allsorts.Context.Slots.{slots, begins_with, length-slots}
use allsorts.Context.Match.{match_front_lem}
use allsorts.Error.{Outcome, ok, ParseError, ◌>>=◌}
use allsorts.Gdef.{GdefTable}
use allsorts.Scripts.Joining.Zipper.{at-length, set_at-length}
use allsorts.Gsub.Glyph.{RawGlyph, direct}
use allsorts.Gsub.Ligature.{Ligature, ligature_matches, ligature_apply}
use allsorts.Gsub.Ligature.Components.{
  keep, absorbed, skipped, left_over, marked, take_lem, mark_lem,
}

module _ {T : Type 0} (merge : T → T → T) (m : MatchType) (t : Option GdefTable) where
  -- The ligature stands for the glyph and its components.
  abbrev pub ligated : Ligature → RawGlyph T → List (RawGlyph T) → RawGlyph T
  ligated l g rest = record (absorbed merge m t (length l.component_glyphs) g rest) {
    glyph_index = l.ligature_glyph;
    glyph_origin = direct;
  }

  apply_lem :
      (l : Ligature) (before rest : List (RawGlyph T)) (g : RawGlyph T)
      → length l.component_glyphs ≤ length (kept (keep merge m t) rest)
      → ligature_apply merge m t l (length before) (before ++ g ∷ rest)
        ≡ ok (
          before
              ++ ligated l g rest
                ∷ (skipped merge m t (length l.component_glyphs) 0 rest
                    ++ marked merge m t
                        (length l.component_glyphs)
                        (left_over merge m t (length l.component_glyphs) rest)),
          length (skipped merge m t (length l.component_glyphs) 0 rest),
        )
  unfolding ligature_apply
  apply_lem l before rest g enough =
      let n = length l.component_glyphs in
      let all = before ++ g ∷ rest in
      let sk = skipped merge m t n 0 rest in
      let lo = left_over merge m t n rest in
      let a = absorbed merge m t n g rest in
      let taken = before ++ a ∷ (sk ++ lo) in
      let i = length before + 1 in
      let start : length before + suc 0 ≡ i = omega arith in
      let fuel : length rest < suc (length all) = omega (arith, length-append before (g ∷ rest)) in
      let end : length before + suc (length sk) ≡ i + length sk = omega arith in
      let room : length lo ≤ length taken =
        omega (arith, length-append before (a ∷ (sk ++ lo)), length-append sk lo) in
      let none_skipped : 0 + length sk ≡ length sk = omega arith in
      rw
        (
          take_lem merge m t rest n before [] g (suc (length all)) n i 0 0 enough fuel (omega arith)
              start,
          mark_lem merge m t lo before sk a (length taken) n (i + length sk) room end,
          at-length before a (sk ++ marked merge m t n lo),
          set_at-length before a (ligated l g rest) (sk ++ marked merge m t n lo),
          none_skipped,
        )
        refl

  begins_with-length :
      (ps : List (ℕ → Bool)) (gs : List ℕ) → begins_with ps gs ≡ true → length ps ≤ length gs
  begins_with-length [] gs h = omega arith
  begins_with-length (p ∷ ps) [] h = cc
  begins_with-length (p ∷ ps) (g ∷ gs) h = elim (Bool-cases (p g)) [
    | inl good ↦
        let rest : begins_with ps gs ≡ true = sym (rw good refl) ∙ h in
        omega (arith, begins_with-length ps gs rest)
    | inr bad ↦ absurd (false≢true (sym (rw bad refl) ∙ h))
  ]

  kept-map :
      (gs : List (RawGlyph T))
      → length (kept (keeps m t) (map (λ g. g.glyph_index) gs)) ≡ length (kept (keep merge m t) gs)
  kept-map [] = refl
  kept-map (g ∷ gs) = elim (Bool-cases (keeps m t g.glyph_index)) [
    | inl a ↦ rw a (ap suc (kept-map gs))
    | inr a ↦ rw a (kept-map gs)
  ]

  behind-map :
      (before rest : List (RawGlyph T)) (g : RawGlyph T)
      → drop (length before + 1) (map (λ x. x.glyph_index) (before ++ g ∷ rest))
        ≡ map (λ x. x.glyph_index) rest
  behind-map [] rest g = refl
  behind-map (b ∷ before) rest g =
      let e : suc (length before) + 1 ≡ suc (length before + 1) = omega arith in
      rw e (behind-map before rest g)

  abbrev matched_value : Outcome ParseError Bool → Bool
  matched_value o = elim o [ ok b ↦ b | _ ↦ false ]

  -- A ligature that matches finds its components.
  pub components_there :
      (l : Ligature) (before rest : List (RawGlyph T)) (g : RawGlyph T)
      → length (before ++ g ∷ rest) < 2 ^ 63
      → ligature_matches merge m t l (length before) (before ++ g ∷ rest) ≡ ok true
      → length l.component_glyphs ≤ length (kept (keep merge m t) rest)
  unfolding ligature_matches
  components_there l before rest g small h =
      let ids = map (λ x. x.glyph_index) (before ++ g ∷ rest) in
      let table = by_id l.component_glyphs in
      let size = length-map (before ++ g ∷ rest) (λ x. x.glyph_index) in
      let inside : length before < length ids =
        omega (arith, size, length-append before (g ∷ rest)) in
      let (r, e, _) =
        match_front_lem m t table ids (omega (arith, size)) (length before) 0 inside in
      let found : begins_with (slots table) (kept (keeps m t) (drop (length before + 1) ids))
          ≡ true =
        ap matched_value (sym (ap (λ o. o >>= λ (b, _). ok b) e) ∙ h) in
      let long = begins_with-length (slots table) _ found in
      let behind = ap (λ gs. length (kept (keeps m t) gs)) (behind-map before rest g) in
      omega (arith, long, behind, kept-map rest, length-slots table)

  -- Where `ligature_matches` holds at a position in a run of fewer than 2 ^ 63 glyphs,
  -- `ligature_apply` ends there, without a panic: the glyph takes in its components and becomes the
  -- ligature, the glyphs passed over stay behind it and note how many components stand before them,
  -- and so do the glyphs directly behind that `marks_only` keeps.
  pub ligature_apply-matches :
      (l : Ligature) (before rest : List (RawGlyph T)) (g : RawGlyph T)
      → length (before ++ g ∷ rest) < 2 ^ 63
      → ligature_matches merge m t l (length before) (before ++ g ∷ rest) ≡ ok true
      → ligature_apply merge m t l (length before) (before ++ g ∷ rest)
        ≡ ok (
          before
              ++ ligated l g rest
                ∷ (skipped merge m t (length l.component_glyphs) 0 rest
                    ++ marked merge m t
                        (length l.component_glyphs)
                        (left_over merge m t (length l.component_glyphs) rest)),
          length (skipped merge m t (length l.component_glyphs) 0 rest),
        )
  ligature_apply-matches l before rest g small h =
      apply_lem l before rest g (components_there l before rest g small h)
