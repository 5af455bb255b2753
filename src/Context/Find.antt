-- ===== src/Context/Find.antt =====
-- The searches for the next and the previous glyph that a lookup keeps.
use allsorts.Base.{
  get_elem?-within, ℕ, zero, suc, ◌+◌, ◌^◌, ◌≤◌, ◌<◌, ◌≡◌, refl, ap, ◌∙◌, arith, ltb, List, [], ◌∷◌,
  Option, none, some, length, get_elem?, drop, Bool-cases, inl, inr, drop-eq-nil, drop-get_elem?,
}
use allsorts.Error.{Outcome, ParseError, ok, ◌>>=◌}
use allsorts.Binary.Scope.{usize_add}
use allsorts.Gdef.{GdefTable}
use allsorts.Context.{MatchType, at, match_glyph, match_at, find_prev, find_next_loop, find_next}
use allsorts.Context.Filter.{keeps, kept, match_glyph_lem}

pub at_lem : {A : Type 0} (xs : List A) (i : ℕ) (x : A) → get_elem? xs i ≡ some x → at xs i ≡ ok x
at_lem xs i x e = rw (at, e) refl

-- The glyphs before a position, the nearest first.
abbrev pub before : {A : Type 0} → List A → ℕ → List A
before xs zero = []
before xs (suc i) = elim (get_elem? xs i) [ none ↦ before xs i | some x ↦ x ∷ before xs i ]

pub before-suc :
    {A : Type 0} (xs : List A) (i : ℕ) (x : A)
    → get_elem? xs i ≡ some x
    → before xs (suc i) ≡ x ∷ before xs i
before-suc xs i x e = rw (before, e) refl

module _ (m : MatchType) (t : Option GdefTable) (glyphs : List ℕ) where
  -- The glyphs that the lookup sees behind a position, and before it.
  abbrev pub behind : ℕ → List ℕ
  behind index = kept (keeps m t) (drop (index + 1) glyphs)

  abbrev pub ahead : ℕ → List ℕ
  ahead index = kept (keeps m t) (before glyphs index)

  -- What a search says about the glyphs on its side: there is none, or the first of them stands at
  -- the position that it gives.
  abbrev pub IsFirst : (ℕ → List ℕ) → List ℕ → Option ℕ → Type 0
  IsFirst side seen none = seen ≡ []
  IsFirst side seen (some j) =
      (g : ℕ) × (get_elem? glyphs j ≡ some g) × (j < length glyphs) × (seen ≡ g ∷ side j)

  -- A search ends, without a panic, in what its side of the list says.
  abbrev pub Finds : (ℕ → List ℕ) → List ℕ → Outcome ParseError (Option ℕ) → Type 0
  Finds side seen o = (r : Option ℕ) × (o ≡ ok r) × IsFirst side seen r

  match_at_lem : (i g : ℕ) → get_elem? glyphs i ≡ some g → match_at m t glyphs i ≡ ok (keeps m t g)
  match_at_lem i g e =
      ap (λ o. o >>= λ glyph. match_glyph m t glyph) (at_lem glyphs i g e) ∙ match_glyph_lem m t g

  next_loop :
      (fuel index : ℕ)
      → length glyphs < 2 ^ 63
      → index < length glyphs
      → length glyphs ≤ index + 1 + fuel
      → Finds behind (behind index) (find_next_loop m t glyphs fuel index)
  unfolding find_next_loop
  next_loop zero index small inside enough =
      (none, refl, rw (drop-eq-nil (index + 1) glyphs (omega arith)) refl)
  next_loop (suc fuel) index small inside enough =
      let n : usize_add index 1 ≡ index + 1 = omega arith in
      rw n (elim (Bool-cases (ltb (index + 1) (length glyphs))) [
        | inr end ↦ rw end (none, refl, rw (drop-eq-nil (index + 1) glyphs (ground arith)) refl)
        | inl more ↦
            let (g, e) = get_elem?-within glyphs (index + 1) (ground arith) in
            let rest = next_loop fuel (index + 1) small (ground arith) (omega arith) in
            rw (more, match_at_lem (index + 1) g e, drop-get_elem? (index + 1) glyphs e)
              (elim (Bool-cases (keeps m t g)) [
                | inl keep ↦ rw keep (some (index + 1), refl, (g, e, ground arith, refl))
                | inr skip ↦ rw skip rest
              ])
      ])

  -- `find_next` from a position in the list: it gives the position of the first glyph behind it that
  -- the lookup keeps, or nothing where there is none.
  pub find_next_lem :
      (index : ℕ)
      → length glyphs < 2 ^ 63
      → index < length glyphs
      → Finds behind (behind index) (find_next m t glyphs index)
  unfolding find_next
  find_next_lem index small inside = next_loop (length glyphs) index small inside (omega arith)

  pub find_prev_lem :
      (index : ℕ) → index ≤ length glyphs → Finds ahead (ahead index) (find_prev m t glyphs index)
  unfolding find_prev
  find_prev_lem zero inside = (none, refl, refl)
  find_prev_lem (suc index) inside =
      let (g, e) = get_elem?-within glyphs index (omega arith) in
      let rest = find_prev_lem index (omega arith) in
      rw (match_at_lem index g e, before-suc glyphs index g e)
        (elim (Bool-cases (keeps m t g)) [
          | inl keep ↦ rw keep (some index, refl, (g, e, omega arith, refl))
          | inr skip ↦ rw skip rest
        ])
