-- ===== src/Gsub/Ligature/Components.antt =====
-- The loops of `Ligature::apply` against a description by lists: which glyphs are taken, which are
-- passed over, and what remains.
use allsorts.Base.{
  ℕ, zero, suc, ◌+◌, ◌%◌, ◌^◌, ◌≤◌, ◌<◌, ◌≡◌, refl, ap, ap₂, sym, ◌∙◌, arith, Bool, true, false,
  ltb, if◌then◌else◌, List, [], ◌∷◌, ◌++◌, Option, length, length-append, lt→ltb, Bool-cases, inl,
  inr,
}
use mathlib.Core.List.{append_assoc}
use allsorts.Context.{MatchType, marks_only}
use allsorts.Context.Filter.{keeps, kept, match_glyph_lem}
use allsorts.Error.{ok}
use allsorts.Gdef.{GdefTable}
use allsorts.Scripts.Joining.Zipper.{at-length, set_at-length, at-behind, set_at-behind}
use allsorts.Gsub.Glyph.{RawGlyph}
use allsorts.Gsub.{vec_remove, remove_at}
use allsorts.Gsub.Multiple.{remove_at-length}
use allsorts.Gsub.Ligature.{absorb, set_component, take_loop, mark_loop}

module _ {T : Type 0} (merge : T → T → T) (m : MatchType) (t : Option GdefTable) where
  abbrev pub keep : RawGlyph T → Bool
  keep g = keeps m t g.glyph_index

  -- The glyph with the first `n` components of the rest taken into it.
  abbrev pub absorbed : ℕ → RawGlyph T → List (RawGlyph T) → RawGlyph T
  absorbed zero g rest = g
  absorbed (suc n) g [] = g
  absorbed (suc n) g (x ∷ rest) =
      if keep x
      then absorbed n
          (record g {
            unicodes = g.unicodes ++ x.unicodes;
            extra_data = merge g.extra_data x.extra_data;
          })
          rest
      else absorbed (suc n) g rest

  -- A glyph that notes how many components stand before it
  abbrev noting : ℕ → RawGlyph T → RawGlyph T
  noting matched x = record x { liga_component_pos = matched % 2 ^ 16 }

  -- The glyphs passed over on the way, which note how many components stand before them.
  abbrev pub skipped : ℕ → ℕ → List (RawGlyph T) → List (RawGlyph T)
  skipped zero matched rest = []
  skipped (suc n) matched [] = []
  skipped (suc n) matched (x ∷ rest) =
      if keep x
      then skipped n (matched + 1) rest
      else noting matched x ∷ skipped (suc n) matched rest

  -- What stands behind the last component.
  abbrev pub left_over : ℕ → List (RawGlyph T) → List (RawGlyph T)
  left_over zero rest = rest
  left_over (suc n) [] = []
  left_over (suc n) (x ∷ rest) = if keep x then left_over n rest else left_over (suc n) rest

  remove-behind :
      (before seen rest : List (RawGlyph T)) (g x : RawGlyph T) (index : ℕ)
      → length before + suc (length seen) ≡ index
      → vec_remove (before ++ g ∷ (seen ++ x ∷ rest)) index ≡ ok (before ++ g ∷ (seen ++ rest))
  remove-behind before seen rest g x index e =
      let there : length (before ++ g ∷ seen) ≡ index = length-append before (g ∷ seen) ∙ e in
      let inside : index < length (before ++ g ∷ (seen ++ x ∷ rest)) =
        omega
          (arith, length-append before (g ∷ (seen ++ x ∷ rest)), length-append seen (x ∷ rest)) in
      rw (lt→ltb _ _ inside) (
        ap ok (
          ap₂ remove_at (sym (append_assoc before (g ∷ seen) (x ∷ rest))) (sym there)
          ∙ remove_at-length (before ++ g ∷ seen) rest x
          ∙ append_assoc before (g ∷ seen) rest))

  pub keeps_one :
      (x : RawGlyph T) (rest : List (RawGlyph T)) (n : ℕ)
      → keep x ≡ true
      → suc n ≤ length (kept keep (x ∷ rest))
      → n ≤ length (kept keep rest)
  keeps_one x rest n k h =
      let one : length (kept keep (x ∷ rest)) ≡ suc (length (kept keep rest)) = rw k refl in
      omega (arith, h, one)

  pub keeps_none :
      (x : RawGlyph T) (rest : List (RawGlyph T)) (n : ℕ)
      → keep x ≡ false
      → n ≤ length (kept keep (x ∷ rest))
      → n ≤ length (kept keep rest)
  keeps_none x rest n k h =
      let none_more : length (kept keep (x ∷ rest)) ≡ length (kept keep rest) = rw k refl in
      omega (arith, h, none_more)

  pub take_lem :
      (rest : List (RawGlyph T)) (n : ℕ) (before seen : List (RawGlyph T)) (g : RawGlyph T)
      (fuel count index matched skip : ℕ)
      → n ≤ length (kept keep rest)
      → length rest < fuel
      → matched + n ≡ count
      → length before + suc (length seen) ≡ index
      → take_loop merge m t fuel count
          (length before)
          index
          matched
          skip
          (before ++ g ∷ (seen ++ rest))
        ≡ ok (
          before ++ absorbed n g rest ∷ (seen ++ (skipped n matched rest ++ left_over n rest)),
          index + length (skipped n matched rest),
          skip + length (skipped n matched rest),
        )
  unfolding take_loop
  take_lem rest n before seen g zero count index matched skip h f c e = absurd (omega arith)
  take_lem rest zero before seen g (suc fuel) count index matched skip h f c e =
      let full : ltb matched count ≡ false = ground (arith, c) in
      let same_index : index ≡ index + 0 = omega arith in
      let same_skip : skip ≡ skip + 0 = omega arith in
      rw full (λ i. ok (before ++ g ∷ (seen ++ rest), same_index i, same_skip i))
  take_lem [] (suc n) before seen g (suc fuel) count index matched skip h f c e =
      absurd (omega arith)
  take_lem (x ∷ rest) (suc n) before seen g (suc fuel) count index matched skip h f c e =
      rw
        (
          lt→ltb matched count (omega arith),
          lt→ltb index (length (before ++ g ∷ (seen ++ x ∷ rest))) (
              omega (
                arith,
                length-append before (g ∷ (seen ++ x ∷ rest)),
                length-append seen (x ∷ rest),
              )),
          at-behind before g seen x rest index e,
          match_glyph_lem m t x.glyph_index,
        )
        (elim (Bool-cases (keep x)) [
          | inl taken ↦
              rw
                (
                  taken,
                  remove-behind before seen rest g x index e,
                  at-length before g (seen ++ rest),
                  set_at-length before g (absorb merge m t g x) (seen ++ rest),
                )
                (take_lem rest n before seen (absorb merge m t g x) fuel count index (matched + 1)
                  skip (keeps_one x rest n taken h) (omega arith) (omega arith) e)
          | inr passed ↦
              let y = set_component merge m t matched x in
              let skips = length (skipped (suc n) matched rest) in
              let one_more : index + 1 + skips ≡ index + suc skips = omega arith in
              let one_skip : skip + 1 + skips ≡ skip + suc skips = omega arith in
              let behind = skipped (suc n) matched rest ++ left_over (suc n) rest in
              rw (passed, set_at-behind before g seen x rest index e y)
                (ap
                    (λ l.
                      take_loop merge m t fuel count (length before) (index + 1) matched (skip + 1)
                        (before ++ g ∷ l))
                    (sym (append_assoc seen (y ∷ []) rest))
                  ∙ take_lem rest (suc n) before (seen ++ y ∷ []) g fuel count (index + 1) matched
                      (skip + 1) (keeps_none x rest (suc n) passed h) (omega arith) c
                      (omega (arith, e, length-append seen (y ∷ [])))
                  ∙ (λ i. ok (
                    before ++ absorbed (suc n) g rest ∷ append_assoc seen (y ∷ []) behind i,
                    one_more i,
                    one_skip i,
                  )))
        ])

  -- The marks directly behind the ligature note the number of its components.
  abbrev pub marked : ℕ → List (RawGlyph T) → List (RawGlyph T)
  marked matched [] = []
  marked matched (x ∷ rest) =
      if keeps marks_only t x.glyph_index then noting matched x ∷ marked matched rest else x ∷ rest

  pub mark_lem :
      (rest before seen : List (RawGlyph T)) (g : RawGlyph T) (fuel matched index : ℕ)
      → length rest ≤ fuel
      → length before + suc (length seen) ≡ index
      → mark_loop merge m t fuel matched index (before ++ g ∷ (seen ++ rest))
        ≡ ok (before ++ g ∷ (seen ++ marked matched rest))
  unfolding mark_loop
  mark_lem [] before seen g zero matched index f e = refl
  mark_lem (x ∷ rest) before seen g zero matched index f e = absurd (omega arith)
  mark_lem [] before seen g (suc fuel) matched index f e =
      let end : ltb index (length (before ++ g ∷ (seen ++ []))) ≡ false =
        ground (arith, e, length-append before (g ∷ (seen ++ [])), length-append seen []) in
      rw end refl
  mark_lem (x ∷ rest) before seen g (suc fuel) matched index f e =
      rw
        (
          lt→ltb index (length (before ++ g ∷ (seen ++ x ∷ rest))) (
              omega (
                arith,
                length-append before (g ∷ (seen ++ x ∷ rest)),
                length-append seen (x ∷ rest),
              )),
          at-behind before g seen x rest index e,
          match_glyph_lem marks_only t x.glyph_index,
        )
        (elim (Bool-cases (keeps marks_only t x.glyph_index)) [
          | inr stop ↦ rw stop refl
          | inl mark ↦
              let y = set_component merge m t matched x in
              rw (mark, set_at-behind before g seen x rest index e y)
                (ap (λ l. mark_loop merge m t fuel matched (index + 1) (before ++ g ∷ l))
                    (sym (append_assoc seen (y ∷ []) rest))
                  ∙ mark_lem rest before (seen ++ y ∷ []) g fuel matched (index + 1) (omega arith)
                      (omega (arith, e, length-append seen (y ∷ [])))
                  ∙ ap (λ l. ok (before ++ g ∷ l))
                      (append_assoc seen (y ∷ []) (marked matched rest)))
        ])
