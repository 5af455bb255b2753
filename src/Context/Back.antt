-- ===== src/Context/Back.antt =====
-- The search for the backtrack glyphs, from the position back to the first glyph.
use allsorts.Base.{
  ℕ, suc, ◌+◌, ◌≤◌, ◌<◌, ◌≡◌, refl, arith, Bool, List, [], ◌∷◌, Option, none, some, length,
  get_elem?, drop, Bool-cases, inl, inr,
}
use allsorts.Error.{ok}
use allsorts.Gdef.{GdefTable}
use allsorts.Context.{MatchType, GlyphTable, match_back_loop, match_back, find_prev}
use allsorts.Context.Find.{behind, ahead, Finds, find_prev_lem, at_lem}
use allsorts.Context.Slots.{slots, begins_with, length-slots, check_lem, drop_head, drop_tail}

module _ (m : MatchType) (t : Option GdefTable) (table : GlyphTable) (glyphs : List ℕ) where
  abbrev seen_behind : ℕ → List ℕ
  seen_behind = behind m t glyphs

  abbrev seen_ahead : ℕ → List ℕ
  seen_ahead = ahead m t glyphs

  back_step :
      (p : ℕ → Bool) (ps : List (ℕ → Bool)) (i index : ℕ)
      → get_elem? (slots table) i ≡ some p
      → Finds m t glyphs seen_ahead (seen_ahead index) (find_prev m t glyphs index)
      → ((j : ℕ)
          → j < length glyphs
          → match_back_loop m t table glyphs (length ps) (i + 1) j
            ≡ ok (begins_with ps (seen_ahead j)))
      → match_back_loop m t table glyphs (suc (length ps)) i index
        ≡ ok (begins_with (p ∷ ps) (seen_ahead index))
  unfolding match_back_loop
  back_step p ps i index e (none, f, none_seen) ih = rw (f, none_seen) refl
  back_step p ps i index e (some j, f, (g, at_j, inside, k)) ih =
      rw (f, at_lem glyphs j g at_j, check_lem table i p g e, k)
        (elim (Bool-cases (p g)) [ inl good ↦ rw good (ih j inside) | inr bad ↦ rw bad refl ])

  back_loop :
      (ps : List (ℕ → Bool)) (i index : ℕ)
      → drop i (slots table) ≡ ps
      → index ≤ length glyphs
      → match_back_loop m t table glyphs (length ps) i index
        ≡ ok (begins_with ps (seen_ahead index))
  unfolding match_back_loop
  back_loop [] i index e inside = refl
  back_loop (p ∷ ps) i index e inside =
      back_step p ps i index (drop_head i (slots table) e) (find_prev_lem m t glyphs index inside)
        (λ j lt. back_loop ps (i + 1) j (drop_tail i (slots table) e) (omega arith))

  pub match_back_lem :
      (index : ℕ)
      → index ≤ length glyphs
      → match_back m t table glyphs index ≡ ok (begins_with (slots table) (seen_ahead index))
  unfolding match_back
  match_back_lem index inside =
      rw (length-slots table) (back_loop (slots table) 0 index refl inside)
