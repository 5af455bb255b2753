-- ===== src/Context/Match.antt =====
-- What it means for a context to match: the glyphs that the lookup keeps, read away from the
-- position, satisfy the entries of the tables in their order.
use allsorts.Base.{
  ℕ, suc, ◌+◌, ◌^◌, ◌<◌, ◌≡◌, refl, arith, ◌&&◌, Bool, true, false, List, [], ◌∷◌, ◌++◌, Option,
  none, some, length, get_elem?, drop, Bool-cases, inl, inr,
}
use allsorts.Error.{Outcome, ParseError, ok, ◌>>=◌}
use allsorts.Gdef.{GdefTable}
use allsorts.Context.{
  MatchType, MatchContext, GlyphTable, match_front_loop, match_front, matches, find_next,
}
use allsorts.Context.Filter.{keeps, kept}
use allsorts.Context.Find.{behind, ahead, before, Finds, find_next_lem, at_lem}
use allsorts.Context.Back.{match_back_lem}
use allsorts.Context.Slots.{
  slots, begins_with, length-slots, check_lem, drop_head, drop_tail, begins_with-append,
}

module _ (m : MatchType) (t : Option GdefTable) (table : GlyphTable) (glyphs : List ℕ)
    (small : length glyphs < 2 ^ 63) where
  abbrev pub seen_behind : ℕ → List ℕ
  seen_behind = behind m t glyphs

  -- The end of the loop: whether the tests hold, and where they do the position of the last glyph.
  abbrev pub FrontEnds : List (ℕ → Bool) → List ℕ → Outcome ParseError (Bool × ℕ) → Type 0
  FrontEnds ps seen o =
      (r : ℕ) × (o ≡ ok (begins_with ps seen, r))
      × (begins_with ps seen ≡ true → (r < length glyphs) × (seen_behind r ≡ drop (length ps) seen))

  front_step :
      (p : ℕ → Bool) (ps : List (ℕ → Bool)) (i index last : ℕ)
      → get_elem? (slots table) i ≡ some p
      → Finds m t glyphs seen_behind (seen_behind index) (find_next m t glyphs index)
      → ((j : ℕ)
          → j < length glyphs
          → FrontEnds ps
              (seen_behind j)
              (match_front_loop m t table glyphs (length ps) (i + 1) j last))
      → FrontEnds
          (p ∷ ps)
          (seen_behind index)
          (match_front_loop m t table glyphs (suc (length ps)) i index last)
  unfolding match_front_loop
  front_step p ps i index last e (none, f, none_seen) ih = rw (f, none_seen) (last, refl, λ h. cc)
  front_step p ps i index last e (some j, f, (g, at_j, inside, k)) ih =
      rw (f, at_lem glyphs j g at_j, check_lem table i p g e, k)
        (elim (Bool-cases (p g)) [
          | inl good ↦ rw good (ih j inside)
          | inr bad ↦ rw bad (last, refl, λ h. cc)
        ])

  front_loop :
      (ps : List (ℕ → Bool)) (i index last : ℕ)
      → drop i (slots table) ≡ ps
      → index < length glyphs
      → FrontEnds ps
          (seen_behind index)
          (match_front_loop m t table glyphs (length ps) i index last)
  unfolding match_front_loop
  front_loop [] i index last e inside = (index, refl, λ h. (inside, refl))
  front_loop (p ∷ ps) i index last e inside =
      front_step p ps i index last (drop_head i (slots table) e)
        (find_next_lem m t glyphs index small inside)
        (λ j lt. front_loop ps (i + 1) j last (drop_tail i (slots table) e) lt)

  pub match_front_lem :
      (index last : ℕ)
      → index < length glyphs
      → FrontEnds (slots table) (seen_behind index) (match_front m t table glyphs index last)
  unfolding match_front
  match_front_lem index last inside =
      rw (length-slots table) (front_loop (slots table) 0 index last refl inside)

-- The context holds around a position: going back from it, the glyphs that the lookup keeps satisfy
-- the backtrack table, and going forward the input table and then the lookahead table.
abbrev pub holds : MatchContext → Option GdefTable → MatchType → List ℕ → ℕ → Bool
holds c t m glyphs index =
    begins_with (slots c.backtrack_table) (kept (keeps m t) (before glyphs index))
    && begins_with (slots c.input_table ++ slots c.lookahead_table)
        (kept (keeps m t) (drop (index + 1) glyphs))

-- The two forward searches, one behind the other.
abbrev forward : MatchContext → Option GdefTable → MatchType → List ℕ → ℕ → Outcome ParseError Bool
forward c t m glyphs index =
    match_front m t c.input_table glyphs index index >>= λ (input, front_index). elim input [
      | false ↦ ok false
      | true ↦
          match_front m t c.lookahead_table glyphs front_index front_index >>= λ (lookahead, _).
          ok lookahead
    ]

forward_lem :
    (c : MatchContext) (t : Option GdefTable) (m : MatchType) (glyphs : List ℕ) (index : ℕ)
    → length glyphs < 2 ^ 63
    → index < length glyphs
    → forward c t m glyphs index
      ≡ ok (
          begins_with
            (slots c.input_table ++ slots c.lookahead_table)
            (kept (keeps m t) (drop (index + 1) glyphs)))
forward_lem c t m glyphs index small inside =
    let seen = kept (keeps m t) (drop (index + 1) glyphs) in
    let (r, e, next) = match_front_lem m t c.input_table glyphs small index index inside in
    rw (e, begins_with-append (slots c.input_table) (slots c.lookahead_table) seen)
      (elim (Bool-cases (begins_with (slots c.input_table) seen)) [
        | inl good ↦
            let (lt, k) = next good in
            let (r', e', _) = match_front_lem m t c.lookahead_table glyphs small r r lt in
            rw (good, e', k) refl
        | inr bad ↦ rw bad refl
      ])

-- For every context, lookup and glyph definitions, and every position in a slice of fewer than 2 ^
-- 63 glyphs, `matches` ends, without a panic, in whether the context holds there: going back, the
-- glyphs that the lookup keeps satisfy the backtrack table, and going forward the input table and
-- then the lookahead table.
pub matches-holds :
    (c : MatchContext) (t : Option GdefTable) (m : MatchType) (glyphs : List ℕ) (index : ℕ)
    → length glyphs < 2 ^ 63
    → index < length glyphs
    → matches c t m glyphs index ≡ ok (holds c t m glyphs index)
unfolding matches
matches-holds c t m glyphs index small inside =
    rw (matches, match_back_lem m t c.backtrack_table glyphs index (omega arith))
      (elim (Bool-cases (begins_with (slots c.backtrack_table) (ahead m t glyphs index))) [
        | inl good ↦ rw good (forward_lem c t m glyphs index small inside)
        | inr bad ↦ rw bad refl
      ])
