-- ===== src/Gsub/Ligature/Run.antt =====
-- src/gsub.rs: the loop of a ligature lookup over the rest of a run.
use allsorts.Base.{
  ℕ, zero, suc, ◌+◌, ◌-◌, ◌%◌, ◌^◌, ◌≤◌, ◌<◌, ◌≡◌, refl, ap, sym, subst, arith, ◌&&◌, Bool, ltb,
  List, [], ◌∷◌, ◌++◌, Option, none, some, length, length-append, lt→ltb, Bool-cases, inl, inr,
}
use allsorts.Binary.Scope.{usize_add, usize_mod}
use allsorts.Context.{MatchType}
use allsorts.Context.Filter.{keeps, match_glyph_lem}
use allsorts.Error.{◌>>=◌, Ends, Ends->>=}
use allsorts.Gdef.{GdefTable}
use allsorts.Scripts.Joining.Zipper.{at-length}
use allsorts.Gsub.Glyph.{RawGlyph}
use allsorts.Gsub.Ligature.Step.{IsStep, ligaturesubst-Ends}
use allsorts.Gsub.Ligature.Lookup.{LigatureSubst, ligaturesubst, ligature_loop, apply_ligatures}

-- A list seen from a position in it.
split :
    {A : Type 0} (xs : List A) (i : ℕ)
    → i < length xs
    → (before : List A) × (x : A) × (rest : List A) × (xs ≡ before ++ x ∷ rest)
      × (length before ≡ i)
split [] i h = absurd (omega arith)
split (x ∷ xs) zero h = ([], x, xs, refl, refl)
split (x ∷ xs) (suc i) h =
    let (before, y, rest, e, f) = split xs i (omega arith) in
    (x ∷ before, y, rest, ap (λ l. x ∷ l) e, ap suc f)

module _ {T : Type 0} (merge : T → T → T) (m : MatchType) (t : Option GdefTable)
    (subtables : List LigatureSubst) (pred : RawGlyph T → Bool) (start most : ℕ)
    (small : most < 2 ^ 63) where
  -- The length that is answered is that of the stretch, which reaches to the end of the run.
  abbrev IsCounted : List (RawGlyph T) × ℕ → Type 0
  IsCounted (glyphs, len) = (start + len ≡ length glyphs) × (length glyphs ≤ most)

  abbrev Loop : ℕ → ℕ → ℕ → List (RawGlyph T) → Type 0
  Loop fuel i len glyphs =
      Ends IsCounted (ligature_loop merge m t subtables pred fuel start i len glyphs)

  -- The loop from a position on, with fuel for each glyph that is left.
  abbrev Loops : ℕ → Type 0
  Loops fuel =
      (i len : ℕ) (glyphs : List (RawGlyph T))
      → length glyphs ≤ most
      → start ≤ i
      → i ≤ length glyphs
      → start + len ≡ length glyphs
      → length glyphs < i + fuel
      → Loop fuel i len glyphs

  module _ (fuel len : ℕ) (before rest : List (RawGlyph T)) (g : RawGlyph T) (ih : Loops fuel)
      (fits : length (before ++ g ∷ rest) ≤ most) (below : start ≤ length before)
      (all : start + len ≡ length (before ++ g ∷ rest))
      (enough : length (before ++ g ∷ rest) < length before + suc fuel) where
    size : length (before ++ g ∷ rest) ≡ length before + suc (length rest)
    size = length-append before (g ∷ rest)

    pass : Loop fuel (usize_add (length before) 1) len (before ++ g ∷ rest)
    pass =
        ih (usize_add (length before) 1) len (before ++ g ∷ rest) fits (omega (arith, size))
          (omega (arith, size)) all (omega (arith, size))

    onward :
        (r : Option (ℕ × ℕ) × List (RawGlyph T))
        → IsStep merge m t subtables before rest g (omega arith) r
        → Ends IsCounted (elim r.0 [
          | none ↦
              ligature_loop merge m t subtables pred fuel start
                (usize_add (length before) 1)
                len
                r.1
          | some counted ↦
              ligature_loop merge m t subtables pred fuel start
                (usize_add (length before) (usize_add counted.1 1))
                ((len + usize_mod - counted.0) % usize_mod)
                r.1
        ])
    onward (none, new) e = subst (Loop fuel (usize_add (length before) 1) len) (sym e) pass
    onward (some (removed, skip), new) (a, b) =
        ih (usize_add (length before) (usize_add skip 1)) ((len + usize_mod - removed) % usize_mod)
          new (omega (arith, size)) (omega (arith, size)) (omega (arith, size))
          (omega (arith, size)) (omega (arith, size))

    step : Loop (suc fuel) (length before) len (before ++ g ∷ rest)
    unfolding ligature_loop
    step =
        rw
          (
            lt→ltb (length before) (usize_add start len) (omega (arith, size)),
            at-length before g rest,
            match_glyph_lem m t g.glyph_index,
          )
          (elim (Bool-cases (keeps m t g.glyph_index && pred g)) [
            | inr other ↦ rw (◌>>=◌, other) pass
            | inl covered ↦
                rw (◌>>=◌, covered)
                  (Ends->>= IsCounted
                    (ligaturesubst merge m t subtables (length before) (before ++ g ∷ rest)) _
                    (ligaturesubst-Ends merge m t subtables before rest g (omega arith)) onward)
          ])

  loops : (fuel : ℕ) → Loops fuel
  unfolding ligature_loop
  loops zero i len glyphs fits below inside all enough = absurd (omega arith)
  loops (suc fuel) i len glyphs fits below inside all enough =
      elim (Bool-cases (ltb i (usize_add start len))) [
        | inr end ↦ rw end (all, fits)
        | inl more ↦
            let (before, g, rest, e, f) = split glyphs i (ground (arith, more)) in
            let same = ap length e in
            let here =
              step fuel len before rest g (loops fuel) (omega (arith, same)) (omega (arith, f))
                (omega (arith, same)) (omega (arith, same, f)) in
            subst (Loop (suc fuel) i len) (sym e)
              (subst (λ j. Loop (suc fuel) j len (before ++ g ∷ rest)) f here)
      ]

-- Over a stretch that reaches from `start` to the end of a run of fewer than 2 ^ 63 glyphs,
-- `apply_ligatures` ends within one step for each glyph: in an error, or in a run that is not
-- longer and whose end the stretch of the answered length still reaches. It does not panic, and its
-- count of the glyphs that are left does not underflow.
pub apply_ligatures-Ends :
    {T : Type 0} (merge : T → T → T) (m : MatchType) (t : Option GdefTable)
    (subtables : List LigatureSubst) (pred : RawGlyph T → Bool) (start len : ℕ)
    (glyphs : List (RawGlyph T))
    → length glyphs < 2 ^ 63
    → start + len ≡ length glyphs
    → Ends
        (λ r. (start + r.1 ≡ length r.0) × (length r.0 ≤ length glyphs))
        (apply_ligatures merge m t subtables pred start len glyphs)
unfolding apply_ligatures
apply_ligatures-Ends merge m t subtables pred start len glyphs small all =
    loops merge m t subtables pred start (length glyphs) small (suc (length glyphs)) start len
      glyphs (omega arith) (omega arith) (omega arith) all (omega arith)
