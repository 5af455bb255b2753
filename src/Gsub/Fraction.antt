-- ===== src/Gsub/Fraction.antt =====
-- src/gsub.rs, `find_fraction`: the digits around the first slash of a run.
use allsorts.Base.{
  ℕ, zero, suc, ◌+◌, ◌-◌, ◌^◌, ◌≤◌, ◌<◌, ◌≡◌, refl, ap, ◌∙◌, arith, ◌==◌, ◌&&◌, Bool, false, ltb,
  leb, if◌then◌else◌, List, [], ◌∷◌, Option, none, some, length, drop, Bool-cases, Option-cases,
  inl, inr, get_elem?-within, drop-get_elem?, drop-eq-nil, ltb→lt,
}
use allsorts.Binary.Scope.{usize_add}
use allsorts.Context.{at}
use allsorts.Context.Find.{at_lem, before, before-suc}
use allsorts.Error.{Outcome, ok, ParseError, ◌>>=◌}
use allsorts.Gsub.Glyph.{RawGlyph, GlyphOrigin, char, direct}
use allsorts.Scripts.Joining.{position}

abbrev pub Plain : Type 0
Plain = RawGlyph (Unit {0})

abbrev char_is_slash : GlyphOrigin → Bool
char_is_slash (char c) = c == 47
char_is_slash direct = false

-- `c.is_digit(10)`
abbrev char_is_digit : GlyphOrigin → Bool
char_is_digit (char c) = leb 48 c && leb c 57
char_is_digit direct = false

abbrev pub is_slash : Plain → Bool
is_slash g = char_is_slash g.glyph_origin

abbrev pub is_digit : Plain → Bool
is_digit g = char_is_digit g.glyph_origin

module _ (glyphs : List Plain) where
  -- `while start_pos > 0`
  unfoldable pub start_loop : ℕ → Outcome ParseError ℕ
  start_loop zero = ok 0
  start_loop (suc start_pos) =
      let rest = start_loop start_pos in
      at glyphs start_pos >>= λ g. if is_digit g then rest else ok (suc start_pos)

  -- `while end_pos + 1 < glyphs.len()`, which passes each glyph at most once.
  unfoldable pub end_loop : ℕ → ℕ → Outcome ParseError ℕ
  end_loop zero end_pos = ok end_pos
  end_loop (suc fuel) end_pos =
      let next = usize_add end_pos 1 in
      let rest = end_loop fuel next in
      if ltb next (length glyphs)
      then (at glyphs next >>= λ g. if is_digit g then rest else ok end_pos)
      else ok end_pos

  unfoldable pub find_fraction : Outcome ParseError (Option (ℕ × ℕ × ℕ))
  find_fraction = elim (position is_slash glyphs) [
    | none ↦ ok none
    | some slash_pos ↦ start_loop slash_pos >>= λ start_pos.
        end_loop (length glyphs) slash_pos >>= λ end_pos. ok (
          if ltb start_pos slash_pos && ltb slash_pos end_pos
          then some (start_pos, slash_pos, end_pos)
          else none)
  ]

-- The number of digits that a list begins with.
abbrev pub digits : List Plain → ℕ
digits [] = 0
digits (g ∷ gs) = if is_digit g then suc (digits gs) else 0

-- The fraction around a slash: the digits directly before it and directly behind it, some on both
-- sides.
abbrev pub fraction_at : List Plain → ℕ → Option (ℕ × ℕ × ℕ)
fraction_at glyphs p =
    let a = digits (before glyphs p) in
    let b = digits (drop (p + 1) glyphs) in
    if ltb 0 a && ltb 0 b then some (p - a, p, p + b) else none

position_bound : (gs : List Plain) (i : ℕ) → position is_slash gs ≡ some i → i < length gs
position_bound [] i e = cc
position_bound (g ∷ gs) i e = elim (Option-cases (position is_slash gs)) [
  | inl f ↦ ground (arith, f)
  | inr (j, f) ↦ ground (arith, f, position_bound gs j f)
]

module _ (glyphs : List Plain) (small : length glyphs < 2 ^ 63) where
  start_loop_lem :
      (p : ℕ)
      → p ≤ length glyphs
      → (digits (before glyphs p) ≤ p) × (start_loop glyphs p ≡ ok (p - digits (before glyphs p)))
  unfolding start_loop
  start_loop_lem zero h = (omega arith, refl)
  start_loop_lem (suc p) h =
      let (g, e) = get_elem?-within glyphs p (omega arith) in
      let (bound, rest) = start_loop_lem p (omega arith) in
      rw (at_lem glyphs p g e, before-suc glyphs p g e)
        (elim (Bool-cases (is_digit g)) [
          | inl a ↦ rw a (omega arith, rest ∙ ap ok (omega arith))
          | inr a ↦ rw a (omega arith, ap ok (omega arith))
        ])

  end_loop_lem :
      (fuel p : ℕ)
      → p < length glyphs
      → length glyphs ≤ p + 1 + fuel
      → end_loop glyphs fuel p ≡ ok (p + digits (drop (p + 1) glyphs))
  unfolding end_loop
  end_loop_lem zero p h f =
      let nothing = drop-eq-nil (p + 1) glyphs (omega arith) in rw nothing (ap ok (omega arith))
  end_loop_lem (suc fuel) p h f =
      let n : usize_add p 1 ≡ p + 1 = omega arith in
      rw n (elim (Bool-cases (ltb (p + 1) (length glyphs))) [
        | inr end ↦ rw (end, drop-eq-nil (p + 1) glyphs (ground (arith, end))) (ap ok (omega arith))
        | inl more ↦
            let inside = ltb→lt (p + 1) (length glyphs) more in
            let (g, e) = get_elem?-within glyphs (p + 1) inside in
            let rest = end_loop_lem fuel (p + 1) inside (omega arith) in
            rw (more, at_lem glyphs (p + 1) g e, drop-get_elem? (p + 1) glyphs e)
              (elim (Bool-cases (is_digit g)) [
                | inl a ↦ rw a (rest ∙ ap ok (omega arith))
                | inr a ↦ rw a (ap ok (omega arith))
              ])
      ])

both_sides : (p a b : ℕ) → a ≤ p → (ltb (p - a) p && ltb p (p + b)) ≡ (ltb 0 a && ltb 0 b)
both_sides p a b h = ground arith

abbrev digits_around : Bool → ℕ → ℕ → ℕ → Option (ℕ × ℕ × ℕ)
digits_around found p a b = if found then some (p - a, p, p + b) else none

abbrev pub fraction_of : List Plain → Option ℕ → Option (ℕ × ℕ × ℕ)
fraction_of glyphs none = none
fraction_of glyphs (some p) = fraction_at glyphs p

-- For every run of fewer than 2 ^ 63 glyphs `find_fraction` ends, without a panic, in the digits
-- directly around the first slash, where there are some on both sides of it, and in none otherwise.
pub find_fraction-fraction_at :
    (glyphs : List Plain)
    → length glyphs < 2 ^ 63
    → find_fraction glyphs ≡ ok (fraction_of glyphs (position is_slash glyphs))
unfolding find_fraction
find_fraction-fraction_at glyphs small = elim (Option-cases (position is_slash glyphs)) [
  | inl e ↦ rw (find_fraction, e) refl
  | inr (p, e) ↦
      let inside = position_bound glyphs p e in
      let (bound, start) = start_loop_lem glyphs small p (omega arith) in
      let a = digits (before glyphs p) in
      let b = digits (drop (p + 1) glyphs) in
      rw (find_fraction, e, start, end_loop_lem glyphs small (length glyphs) p inside (omega arith))
        (ap (λ c. ok (digits_around c p a b)) (both_sides p a b bound))
]
