-- ===== src/Scripts/Joining/Law.antt =====
-- The loop over the indices, and the forms that the neighbours of a letter ask for.
use allsorts.Base.{
  ℕ, suc, ◌+◌, ◌==◌, ◌&&◌, ◌≡◌, refl, ap, ap₂, sym, ◌∙◌, arith, Bool, false, if◌then◌else◌, List,
  [], ◌∷◌, ◌++◌, length, All, Bool-cases, inl, inr, length-append,
}
use mathlib.Core.List.{append_assoc}
use allsorts.Error.{ok}
use allsorts.Scripts.Joining.{
  JoiningGlyph, isol, init, medi, fina, advance_previous, joins, join_pair, join_loop,
}
use allsorts.Scripts.Joining.Forms.{joined_tag, form, with_form, next_joins, shaped, IsLawful}
use allsorts.Scripts.Joining.Zipper.{at-length, set_at-length, at-behind, set_at-behind}

module _ {G : Type 0} (j : JoiningGlyph G) (law : IsLawful j) where
  advance_lem :
      (done : List G) (p : G) (rest : List G)
      → advance_previous j (done ++ p ∷ rest) (length done)
        ≡ ok (done ++ j.set_feature_tag (joined_tag (j.feature_tag p)) p ∷ rest)
  unfolding advance_previous
  advance_lem done p rest =
      rw (at-length done p rest) (elim (Bool-cases (j.feature_tag p == isol)) [
        | inl a ↦ rw a (ap ok (set_at-length done p (j.set_feature_tag init p) rest))
        | inr a ↦ rw a (elim (Bool-cases (j.feature_tag p == fina)) [
          | inl b ↦ rw b (ap ok (set_at-length done p (j.set_feature_tag medi p) rest))
          | inr b ↦ rw b (ap (λ q. ok (done ++ q ∷ rest)) (sym (law.set-same p)))
        ])
      ])

  -- The pair of the glyph at `done` and the one behind the glyphs `mid`.
  pair_lem :
      (done mid rest : List G) (p g : G) (i : ℕ)
      → length done + suc (length mid) ≡ i
      → join_pair j (done ++ p ∷ (mid ++ g ∷ rest)) (length done) i
        ≡ ok (
            if j.is_left_joining p && j.is_right_joining g
            then done
              ++ j.set_feature_tag (joined_tag (j.feature_tag p)) p
                ∷ (mid ++ j.set_feature_tag (j.final_tag g) g ∷ rest)
            else done ++ p ∷ (mid ++ g ∷ rest))
  unfolding join_pair joins
  pair_lem done mid rest p g i e =
      let there = at-behind done p mid g rest i e in
      let tagged = j.set_feature_tag (j.final_tag g) g in
      rw (at-length done p (mid ++ g ∷ rest)) (elim (Bool-cases (j.is_left_joining p)) [
        | inr a ↦ rw a refl
        | inl a ↦
            rw (a, there)
              (elim (Bool-cases (j.is_right_joining g)) [
                | inr b ↦ rw b refl
                | inl b ↦
                    rw (b, there, set_at-behind done p mid g rest i e tagged)
                      (advance_lem done p (mid ++ tagged ∷ rest))
              ])
      ])

  -- The tag that the loop has given to the letter it has just passed.
  abbrev passed : G → Bool → G
  passed p before = with_form j p before false

  pair_passed :
      (done mid rest : List G) (p g : G) (before : Bool) (i : ℕ)
      → length done + suc (length mid) ≡ i
      → j.feature_tag g ≡ isol
      → join_pair j (done ++ passed p before ∷ (mid ++ g ∷ rest)) (length done) i
        ≡ ok (
            done
            ++ with_form j p before (j.is_left_joining p && j.is_right_joining g)
              ∷ (mid ++ passed g (j.is_left_joining p && j.is_right_joining g) ∷ rest))
  pair_passed done mid rest p g before i e h =
      let same : passed g false ≡ g =
        ap (λ tag. j.set_feature_tag tag g) (sym h) ∙ law.set-same g in
      pair_lem done mid rest (passed p before) g i e
      ∙ rw
          (
            law.left-set (form j p before false) p,
            law.tag-set (form j p before false) p,
            law.set-set (joined_tag (form j p before false)) (form j p before false) p,
          )
          (elim (Bool-cases (j.is_left_joining p && j.is_right_joining g)) [
            | inl b ↦ rw b refl
            | inr b ↦ rw b (ap (λ x. ok (done ++ passed p before ∷ (mid ++ x ∷ rest))) (sym same))
          ])

  -- What the loop makes of the glyphs from `p` on, where `p` joins the letter before it or not.
  abbrev Loops : List G → Type 0
  Loops rest =
      (done mid : List G) (p : G) (before : Bool) (i : ℕ)
      → length done + suc (length mid) ≡ i
      → join_loop j (length rest) (done ++ passed p before ∷ (mid ++ rest)) (length done) i
        ≡ ok (
            done
            ++ with_form j p before (j.is_left_joining p && next_joins j rest)
              ∷ (mid ++ shaped j (j.is_left_joining p) rest))

  -- From a letter on that follows `done`, `x` and `mid`.
  onward :
      (done mid rest : List G) (x g : G) (before : Bool) (i : ℕ)
      → length done + suc (length mid) ≡ i
      → Loops rest
      → join_loop j (length rest) (done ++ x ∷ (mid ++ passed g before ∷ rest)) i (i + 1)
        ≡ ok (
            done
            ++ x
              ∷ (mid
                  ++ with_form j g before (j.is_left_joining g && next_joins j rest)
                    ∷ shaped j (j.is_left_joining g) rest))
  onward done mid rest x g before i e ih =
      let there : length (done ++ x ∷ mid) ≡ i = length-append done (x ∷ mid) ∙ e in
      ap₂ (λ l n. join_loop j (length rest) l n (i + 1))
        (sym (append_assoc done (x ∷ mid) (passed g before ∷ rest))) (sym there)
      ∙ ih (done ++ x ∷ mid) [] g before (i + 1) (omega (arith, there))
      ∙ ap ok (append_assoc done (x ∷ mid) _)

  -- A transparent glyph is passed over.
  pass_over :
      (done mid rest : List G) (p g : G) (before : Bool) (i : ℕ)
      → length done + suc (length mid) ≡ i
      → Loops rest
      → join_loop j
          (length rest)
          (done ++ passed p before ∷ (mid ++ g ∷ rest))
          (length done)
          (i + 1)
        ≡ ok (
            done
            ++ with_form j p before (j.is_left_joining p && next_joins j rest)
              ∷ (mid ++ g ∷ shaped j (j.is_left_joining p) rest))
  pass_over done mid rest p g before i e ih =
      ap (λ l. join_loop j (length rest) (done ++ passed p before ∷ l) (length done) (i + 1))
        (sym (append_assoc mid (g ∷ []) rest))
      ∙ ih done (mid ++ g ∷ []) p before (i + 1) (omega (arith, e, length-append mid (g ∷ [])))
      ∙ ap (λ l. ok (done ++ with_form j p before (j.is_left_joining p && next_joins j rest) ∷ l))
          (append_assoc mid (g ∷ []) (shaped j (j.is_left_joining p) rest))

  pub loop_lem : (rest : List G) → All (λ g. j.feature_tag g ≡ isol) rest → Loops rest
  unfolding join_loop
  loop_lem [] h done mid p before i e = elim (Bool-cases (j.is_left_joining p)) [
    | inl a ↦ rw a refl
    | inr a ↦ rw a refl
  ]
  loop_lem (g ∷ rest) (h, hs) done mid p before i e =
      let ih = loop_lem rest hs in
      rw (at-behind done (passed p before) mid g rest i e) (elim (Bool-cases (j.is_transparent g)) [
        | inl a ↦ rw a (pass_over done mid rest p g before i e ih)
        | inr a ↦
            let b = j.is_left_joining p && j.is_right_joining g in
            rw (a, pair_passed done mid rest p g before i e h)
              (onward done mid rest (with_form j p before b) g b i e ih)
      ])
