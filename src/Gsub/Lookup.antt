-- ===== src/Gsub/Lookup.antt =====
-- src/gsub.rs, `gsub_apply_lookup`, the loop of a multiple substitution over a stretch of the glyphs:
-- the position moves past what has been put in, and the length of the stretch follows.
use allsorts.Base.{
  ℕ, zero, suc, ◌+◌, ◌-◌, ◌%◌, ◌^◌, ◌≤◌, ◌<◌, ◌≡◌, refl, ap, ap₂, sym, ◌∙◌, arith, ◌&&◌, Bool, true,
  false, ltb, if◌then◌else◌, List, [], ◌∷◌, ◌++◌, Option, none, some, length, length-append,
  length-map, lt→ltb, Bool-cases, inl, inr,
}
use mathlib.Core.List.{append_assoc}
use allsorts.Binary.Scope.{usize_add, usize_mod}
use allsorts.Context.{MatchType, at, match_glyph}
use allsorts.Context.Filter.{keeps, match_glyph_lem}
use allsorts.Error.{Outcome, ok, panic, err, undefined, ParseError, ◌>>=◌}
use allsorts.Gdef.{GdefTable}
use allsorts.Scripts.Joining.Zipper.{at-length}
use allsorts.Gsub.Glyph.{RawGlyph}
use allsorts.Gsub.{MultipleSubst, entry_of, first_apply}
use allsorts.Gsub.Multiple.{multiplesubst, expansion, replaced, copy, multiplesubst-expansion}

module _ {T : Type 0} (subtables : List MultipleSubst) (m : MatchType) (t : Option GdefTable)
    (pred : RawGlyph T → Bool) where
  -- `while i < start + length`: the glyphs and the length at the end.
  unfoldable pub multiple_loop :
      ℕ → ℕ → ℕ → ℕ → List (RawGlyph T) → Outcome ParseError (List (RawGlyph T) × ℕ)
  multiple_loop zero start i len glyphs = panic
  multiple_loop (suc fuel) start i len glyphs =
      if ltb i (usize_add start len)
      then (at glyphs i >>= λ g. match_glyph m t g.glyph_index >>= λ matched.
          elim (matched && pred g) [
            | false ↦ multiple_loop fuel start (usize_add i 1) len glyphs
            | true ↦ multiplesubst subtables i glyphs >>= λ (count, replaced_glyphs). elim count [
              | none ↦ multiple_loop fuel start (usize_add i 1) len replaced_glyphs
              | some replace_count ↦
                  multiple_loop fuel start (usize_add i replace_count)
                    ((usize_add len replace_count + usize_mod - 1) % usize_mod) replaced_glyphs
            ]
          ])
      else ok (glyphs, len)

  -- Each step consumes one glyph of the stretch.
  unfoldable pub apply_multiple :
      ℕ → ℕ → List (RawGlyph T) → Outcome ParseError (List (RawGlyph T) × ℕ)
  apply_multiple start len glyphs = multiple_loop (suc len) start start len glyphs

  -- The sequence for a glyph, where the lookup does not pass it over.
  abbrev pub sequence_for : RawGlyph T → Outcome ParseError (Option (List ℕ))
  sequence_for g =
      if keeps m t g.glyph_index && pred g
      then first_apply (λ s. entry_of s.coverage s.sequences g.glyph_index) subtables
      else ok none

  -- The glyphs one by one, each replaced by its sequence.
  abbrev pub expand_all : List (RawGlyph T) → Outcome ParseError (List (RawGlyph T))
  expand_all [] = ok []
  expand_all (g ∷ gs) =
      let rest = expand_all gs in
      sequence_for g >>= λ found. rest >>= λ out. ok (expansion found g ++ out)

  bind_inv :
      {A B : Type 0} (o : Outcome ParseError A) (f : A → Outcome ParseError B) (b : B)
      → (o >>= f) ≡ ok b
      → (a : A) × (o ≡ ok a) × (f a ≡ ok b)
  bind_inv (ok a) f b h = (a, refl, h)
  bind_inv (err e) f b h = cc
  bind_inv panic f b h = cc
  bind_inv undefined f b h = cc

  length-expansion : (s : List ℕ) (g : RawGlyph T) → length (expansion (some s) g) ≡ length s
  length-expansion [] g = refl
  length-expansion (x ∷ xs) g = ap suc (length-map xs (copy g))

  -- Where the loop goes on, in the numbers without wrapping.
  onward :
      (fuel start i i' len len' : ℕ) (glyphs : List (RawGlyph T))
      → i ≡ i'
      → len ≡ len'
      → multiple_loop fuel start i len glyphs ≡ multiple_loop fuel start i' len' glyphs
  onward fuel start i i' len len' glyphs e f = ap₂ (λ j l. multiple_loop fuel start j l glyphs) e f

  abbrev value_or : Option (List ℕ) → Outcome ParseError (Option (List ℕ)) → Option (List ℕ)
  value_or d o = elim o [ ok v ↦ v | _ ↦ d ]

  -- What the loop does with the answer of `multiplesubst`.
  answer_lem :
      (fuel start i len : ℕ) (g : RawGlyph T) (found : Option (List ℕ)) (glyphs : List (RawGlyph T))
      → i + length (expansion found g) < 2 ^ 63
      → len + length (expansion found g) < 2 ^ 63
      → 0 < len
      → elim (replaced found) [
        | none ↦ multiple_loop fuel start (usize_add i 1) len glyphs
        | some replace_count ↦
            multiple_loop fuel start
              (usize_add i replace_count)
              ((usize_add len replace_count + usize_mod - 1) % usize_mod)
              glyphs
      ]
        ≡ multiple_loop fuel start
            (i + length (expansion found g))
            (len + length (expansion found g) - 1)
            glyphs
  answer_lem fuel start i len g none glyphs a b h =
      onward fuel start (usize_add i 1) (i + 1) len (len + 1 - 1) glyphs (omega arith) (omega arith)
  answer_lem fuel start i len g (some s) glyphs a b h =
      let e = length-expansion s g in
      onward fuel start (usize_add i (length s)) (i + length (expansion (some s) g))
        ((usize_add len (length s) + usize_mod - 1) % usize_mod)
        (len + length (expansion (some s) g) - 1) glyphs (omega (arith, e)) (omega (arith, e))

  -- One step, on a glyph with its sequence.
  step_lem :
      (done rest : List (RawGlyph T)) (g : RawGlyph T) (found : Option (List ℕ))
      (fuel start len : ℕ)
      → sequence_for g ≡ ok found
      → start ≤ length done
      → length done < start + len
      → start + len < 2 ^ 63
      → length done + length (expansion found g) < 2 ^ 63
      → len + length (expansion found g) < 2 ^ 63
      → multiple_loop (suc fuel) start (length done) len (done ++ g ∷ rest)
        ≡ multiple_loop fuel start
            (length done + length (expansion found g))
            (len + length (expansion found g) - 1)
            (done ++ (expansion found g ++ rest))
  unfolding multiple_loop
  step_lem done rest g found fuel start len h below more small a b =
      rw
        (
          lt→ltb (length done) (usize_add start len) (omega arith),
          at-length done g rest,
          match_glyph_lem m t g.glyph_index,
        )
        (elim (Bool-cases (keeps m t g.glyph_index && pred g)) [
          | inl covered ↦
              let h' = sym (sequence_covered covered) ∙ h in
              rw (◌>>=◌, covered, multiplesubst-expansion subtables done rest g found h')
                (answer_lem fuel start (length done) len g found
                  (done ++ (expansion found g ++ rest)) a b (omega arith))
          | inr other ↦
              let none_found : none ≡ found = ap (value_or none) (sym (sequence_other other) ∙ h) in
              rw (◌>>=◌, other, sym none_found)
                (onward fuel start (usize_add (length done) 1) (length done + 1) len (len + 1 - 1)
                  (done ++ g ∷ rest) (omega arith) (omega arith))
        ])
    where
      sequence_covered :
          (keeps m t g.glyph_index && pred g) ≡ true
          → sequence_for g
            ≡ first_apply (λ s. entry_of s.coverage s.sequences g.glyph_index) subtables
      sequence_covered covered = rw covered refl

      sequence_other : (keeps m t g.glyph_index && pred g) ≡ false → sequence_for g ≡ ok none
      sequence_other other = rw other refl

  abbrev list_or_nil : Outcome ParseError (List (RawGlyph T)) → List (RawGlyph T)
  list_or_nil o = elim o [ ok gs ↦ gs | _ ↦ [] ]

  loop_lem :
      (seg done after out : List (RawGlyph T)) (fuel start len : ℕ)
      → expand_all seg ≡ ok out
      → start ≤ length done
      → start + len ≡ length done + length seg
      → length seg < fuel
      → length done + length seg + length out < 2 ^ 63
      → multiple_loop fuel start (length done) len (done ++ (seg ++ after))
        ≡ ok (done ++ (out ++ after), len + length out - length seg)
  unfolding multiple_loop
  loop_lem seg done after out zero start len h below size f b = absurd (omega arith)
  loop_lem [] done after out (suc fuel) start len h below size f b =
      let nothing : [] ≡ out = ap list_or_nil h in
      let end : ltb (length done) (usize_add start len) ≡ false = ground (arith, size) in
      let same : len ≡ len + 0 - 0 = omega arith in
      rw (end, sym nothing) (λ i. ok (done ++ after, same i))
  loop_lem (g ∷ seg) done after out (suc fuel) start len h below size f b =
      let (found, hg, h1) = bind_inv (sequence_for g) _ out h in
      let (out', hs, h2) = bind_inv (expand_all seg) _ out h1 in
      let e = expansion found g in
      let all : e ++ out' ≡ out = ap list_or_nil h2 in
      let total = sym (length-append e out') ∙ ap length all in
      let grown = length-append done e in
      let rest =
        loop_lem seg (done ++ e) after out' fuel start (len + length e - 1) hs
          (omega (arith, grown)) (omega (arith, grown, total)) (omega arith)
          (omega (arith, grown, total)) in
      let count : len + length e - 1 + length out' - length seg
          ≡ len + length out - suc (length seg) =
        omega (arith, total) in
      step_lem done (seg ++ after) g found fuel start len hg below (omega arith)
        (omega (arith, total)) (omega (arith, total)) (omega (arith, total))
      ∙ ap₂ (λ i gs. multiple_loop fuel start i (len + length e - 1) gs) (sym grown)
          (sym (append_assoc done e (seg ++ after)))
      ∙ rest
      ∙ (λ i. ok (
        (append_assoc done e (out' ++ after)
              ∙ ap (λ gs. done ++ gs) (sym (append_assoc e out' after) ∙ ap (λ o. o ++ after) all))
            i,
        count i,
      ))

  -- Where every glyph of a stretch has a sequence or is left alone, giving `out` in all, and the
  -- positions fit 63 bits, `apply_multiple` ends, within one step for each glyph of the stretch and
  -- without a panic: it puts `out` in the place of the stretch, leaves what stands before and
  -- behind it, and answers with the length of `out`.
  pub apply_multiple-expand_all :
      (before seg after out : List (RawGlyph T))
      → expand_all seg ≡ ok out
      → length before + length seg + length out < 2 ^ 63
      → apply_multiple (length before) (length seg) (before ++ (seg ++ after))
        ≡ ok (before ++ (out ++ after), length out)
  unfolding apply_multiple
  apply_multiple-expand_all before seg after out h b =
      let same : length seg + length out - length seg ≡ length out = omega arith in
      loop_lem seg before after out (suc (length seg)) (length before) (length seg) h (omega arith)
        refl (omega arith) b
      ∙ ap (λ n. ok (before ++ (out ++ after), n)) same
