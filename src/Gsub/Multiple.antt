-- ===== src/Gsub/Multiple.antt =====
-- src/gsub.rs, `multiplesubst`: a glyph becomes a sequence of glyphs, in place.
use allsorts.Base.{
  ℕ, suc, ◌+◌, ◌≤◌, ◌≡◌, refl, ap, ap₂, sym, ◌∙◌, arith, List, [], ◌∷◌, ◌++◌, Option, none, some,
  true, length, map, length-append, lt→ltb, le→leb,
}
use mathlib.Core.List.{append_assoc}
use allsorts.Context.{at}
use allsorts.Error.{Outcome, ok, ParseError, ◌>>=◌}
use allsorts.Scripts.Joining.{set_at}
use allsorts.Scripts.Joining.Zipper.{at-length, set_at-length}
use allsorts.Gsub.Glyph.{RawGlyph, direct}
use allsorts.Gsub.{
  MultipleSubst, entry_of, first_apply, insert_at, vec_insert, remove_at, vec_remove, duplicate,
}

-- How many glyphs the caller is to pass over.
abbrev pub replaced : Option (List ℕ) → Option ℕ
replaced none = none
replaced (some s) = some (length s)

module _ {T : Type 0} where
  abbrev first_glyph : RawGlyph T → ℕ → RawGlyph T
  first_glyph g glyph_index = record g { glyph_index = glyph_index; glyph_origin = direct }

  -- `for j in 1..substitute_glyphs.len()`
  unfoldable pub insert_loop :
      List ℕ → ℕ → ℕ → List (RawGlyph T) → Outcome ParseError (List (RawGlyph T))
  insert_loop [] i j glyphs = ok glyphs
  insert_loop (output ∷ outputs) i j glyphs = at glyphs i >>= λ g.
      vec_insert glyphs (i + j) (duplicate g output) >>= λ inserted.
      insert_loop outputs i (j + 1) inserted

  unfoldable pub apply_sequence :
      List ℕ → ℕ → List (RawGlyph T) → Outcome ParseError (Option ℕ × List (RawGlyph T))
  unfolding insert_loop
  apply_sequence [] i glyphs = vec_remove glyphs i >>= λ removed. ok (some 0, removed)
  apply_sequence (first ∷ outputs) i glyphs = at glyphs i >>= λ g.
      insert_loop outputs i 1 (set_at glyphs i (first_glyph g first)) >>= λ inserted.
      ok (some (suc (length outputs)), inserted)

  unfoldable pub multiplesubst :
      List MultipleSubst → ℕ → List (RawGlyph T) → Outcome ParseError (Option ℕ × List (RawGlyph T))
  unfolding apply_sequence first_apply
  multiplesubst subtables i glyphs = at glyphs i >>= λ g.
      first_apply (λ s. entry_of s.coverage s.sequences g.glyph_index) subtables >>= λ found.
      elim found [ none ↦ ok (none, glyphs) | some sequence ↦ apply_sequence sequence i glyphs ]

  -- A copy of a glyph behind the first of its sequence
  abbrev pub copy : RawGlyph T → ℕ → RawGlyph T
  copy g glyph_index = record g {
    glyph_index = glyph_index;
    liga_component_pos = 0;
    glyph_origin = direct;
    multi_subst_dup = true;
  }

  -- What stands in place of a glyph.
  abbrev pub expansion : Option (List ℕ) → RawGlyph T → List (RawGlyph T)
  expansion none g = g ∷ []
  expansion (some []) g = []
  expansion (some (s ∷ ss)) g =
      record g { glyph_index = s; glyph_origin = direct } ∷ map (copy g) ss

  insert_at-length :
      (xs ys : List (RawGlyph T)) (y : RawGlyph T)
      → insert_at (xs ++ ys) (length xs) y ≡ xs ++ y ∷ ys
  insert_at-length [] ys y = refl
  insert_at-length (x ∷ xs) ys y = ap (λ l. x ∷ l) (insert_at-length xs ys y)

  pub remove_at-length :
      (xs ys : List (RawGlyph T)) (y : RawGlyph T) → remove_at (xs ++ y ∷ ys) (length xs) ≡ xs ++ ys
  remove_at-length [] ys y = refl
  remove_at-length (x ∷ xs) ys y = ap (λ l. x ∷ l) (remove_at-length xs ys y)

  insert-inside :
      (before done after : List (RawGlyph T)) (g y : RawGlyph T) (j : ℕ)
      → suc (length done) ≡ j
      → vec_insert (before ++ g ∷ (done ++ after)) (length before + j) y
        ≡ ok (before ++ g ∷ (done ++ y ∷ after))
  insert-inside before done after g y j e =
      let all = length-append before (g ∷ (done ++ after)) in
      let there : length (before ++ g ∷ done) ≡ length before + j =
        length-append before (g ∷ done) ∙ ap (λ n. length before + n) e in
      let fits : length before + j ≤ length (before ++ g ∷ (done ++ after)) =
        omega (arith, all, length-append done after) in
      rw (le→leb _ _ fits) (
        ap ok (
          ap₂ (λ l n. insert_at l n y) (sym (append_assoc before (g ∷ done) after)) (sym there)
          ∙ insert_at-length (before ++ g ∷ done) after y
          ∙ append_assoc before (g ∷ done) (y ∷ after)))

  insert_loop_lem :
      (outputs : List ℕ) (before done after : List (RawGlyph T)) (g : RawGlyph T) (j : ℕ)
      → suc (length done) ≡ j
      → insert_loop outputs (length before) j (before ++ g ∷ (done ++ after))
        ≡ ok (before ++ g ∷ (done ++ (map (duplicate g) outputs ++ after)))
  unfolding insert_loop
  insert_loop_lem [] before done after g j e = refl
  insert_loop_lem (s ∷ outputs) before done after g j e =
      let d = duplicate g s in
      rw (at-length before g (done ++ after), insert-inside before done after g d j e)
        (ap (λ l. insert_loop outputs (length before) (j + 1) (before ++ g ∷ l))
            (sym (append_assoc done (d ∷ []) after))
          ∙ insert_loop_lem outputs before (done ++ d ∷ []) after g (j + 1)
              (omega (arith, e, length-append done (d ∷ [])))
          ∙ ap (λ l. ok (before ++ g ∷ l))
              (append_assoc done (d ∷ []) (map (duplicate g) outputs ++ after)))

  sequence_lem :
      (s : ℕ) (ss : List ℕ) (before after : List (RawGlyph T)) (g : RawGlyph T)
      → apply_sequence (s ∷ ss) (length before) (before ++ g ∷ after)
        ≡ ok (replaced (some (s ∷ ss)), before ++ (expansion (some (s ∷ ss)) g ++ after))
  unfolding apply_sequence
  sequence_lem s ss before after g =
      rw
        (
          at-length before g after,
          set_at-length before g (first_glyph g s) after,
          insert_loop_lem ss before [] after (first_glyph g s) 1 refl,
        )
        refl

  -- On a glyph in a run, where the subtables answer for it with a sequence or with none,
  -- `multiplesubst` ends, without a panic, and puts the sequence in its place: the first with the
  -- glyph's own data, the others as copies of it; an empty sequence removes the glyph, and no
  -- sequence leaves it. It answers with the length of the sequence.
  pub multiplesubst-expansion :
      (subtables : List MultipleSubst) (before after : List (RawGlyph T)) (g : RawGlyph T)
      (found : Option (List ℕ))
      → first_apply (λ s. entry_of s.coverage s.sequences g.glyph_index) subtables ≡ ok found
      → multiplesubst subtables (length before) (before ++ g ∷ after)
        ≡ ok (replaced found, before ++ (expansion found g ++ after))
  unfolding multiplesubst apply_sequence
  multiplesubst-expansion subtables before after g none h = rw (at-length before g after, h) refl
  multiplesubst-expansion subtables before after g (some []) h =
      rw
        (
          at-length before g after,
          h,
          lt→ltb (length before) (length (before ++ g ∷ after))
              (omega (arith, length-append before (g ∷ after))),
          remove_at-length before after g,
        )
        refl
  multiplesubst-expansion subtables before after g (some (s ∷ ss)) h =
      rw (at-length before g after, h) (sequence_lem s ss before after g)
