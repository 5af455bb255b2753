-- ===== src/Gsub/Ligature/Step.antt =====
-- One step of a ligature lookup: which ligature is found, and what it leaves.
use allsorts.Base.{
  ℕ, zero, suc, ◌+◌, ◌^◌, ◌≤◌, ◌<◌, ◌≡◌, refl, ap, arith, Bool, true, false, ltb, List, [], ◌∷◌,
  ◌++◌, Option, none, some, length, map, length-append, length-map, ltb→lt, get_elem?-within,
  Bool-cases, Option-cases, inl, inr,
}
use allsorts.Context.{MatchType, by_id, marks_only}
use allsorts.Context.Filter.{keeps, kept}
use allsorts.Context.Find.{at_lem}
use allsorts.Context.Match.{match_front_lem}
use allsorts.Error.{Outcome, ok, ParseError, ◌>>=◌, Ends, Ends->>=}
use allsorts.Gdef.{GdefTable}
use allsorts.Layout.Coverage.{Coverage, glyph_coverage_value}
use allsorts.Scripts.Joining.Zipper.{at-length}
use allsorts.Gsub.{entry_of, checked_at}
use allsorts.Gsub.Glyph.{RawGlyph}
use allsorts.Gsub.Ligature.{Ligature, ligature_matches, ligature_apply}
use allsorts.Gsub.Ligature.Components.{keep, keeps_one, keeps_none, skipped, left_over, marked}
use allsorts.Gsub.Ligature.Apply.{ligature_apply-matches, components_there, ligated}
use allsorts.Gsub.Ligature.Lookup.{LigatureSubst, first_ligature, ligature_for, ligaturesubst}

-- `check_index` keeps the access in range.
checked_at-Ends : {A : Type 0} (xs : List A) (i : ℕ) → Ends (λ x. Unit {0}) (checked_at xs i)
checked_at-Ends xs i = elim (Bool-cases (ltb i (length xs))) [
  | inl inside ↦
      let (x, e) = get_elem?-within xs i (ltb→lt i (length xs) inside) in
      rw (inside, at_lem xs i x e) tt
  | inr outside ↦ rw outside tt
]

entry_of-Ends :
    {A : Type 0} (c : Coverage) (xs : List A) (g : ℕ) → Ends (λ o. Unit {0}) (entry_of c xs g)
unfolding entry_of
entry_of-Ends c xs g = elim (Option-cases (glyph_coverage_value c g)) [
  | inl e ↦ rw (entry_of, e) tt
  | inr (i, e) ↦
      rw (entry_of, e)
        (Ends->>= (λ o. Unit {0}) (checked_at xs i) _ (checked_at-Ends xs i) (λ x u. tt))
]

module _ {T : Type 0} (merge : T → T → T) (m : MatchType) (t : Option GdefTable) where
  matches_ok :
      (l : Ligature) (i : ℕ) (glyphs : List (RawGlyph T))
      → length glyphs < 2 ^ 63
      → i < length glyphs
      → (b : Bool) × (ligature_matches merge m t l i glyphs ≡ ok b)
  unfolding ligature_matches
  matches_ok l i glyphs small inside =
      let ids = map (λ x. x.glyph_index) glyphs in
      let size = length-map glyphs (λ x. x.glyph_index) in
      let (r, e, _) =
        match_front_lem m t (by_id l.component_glyphs) ids (omega (arith, size)) i 0
          (omega (arith, size)) in
      (_, ap (λ o. o >>= λ (b, _). ok b) e)

  abbrev IsMatch : ℕ → List (RawGlyph T) → Option Ligature → Type 0
  IsMatch i glyphs none = Unit {0}
  IsMatch i glyphs (some l) = ligature_matches merge m t l i glyphs ≡ ok true

  module _ (i : ℕ) (glyphs : List (RawGlyph T)) (small : length glyphs < 2 ^ 63)
      (inside : i < length glyphs) where
    abbrev Result : Outcome ParseError (Option Ligature) → Type 0
    Result o = Ends (IsMatch i glyphs) o

    by_match :
        (l : Ligature) (ls : List Ligature)
        → (b : Bool) × (ligature_matches merge m t l i glyphs ≡ ok b)
        → Result (first_ligature merge m t ls i glyphs)
        → Result (first_ligature merge m t (l ∷ ls) i glyphs)
    unfolding first_ligature
    by_match l ls (true, e) rest = rw (first_ligature, e) e
    by_match l ls (false, e) rest = rw (first_ligature, e) rest

    first_ligature-Ends : (ls : List Ligature) → Result (first_ligature merge m t ls i glyphs)
    unfolding first_ligature
    first_ligature-Ends [] = tt
    first_ligature-Ends (l ∷ ls) =
        by_match l ls (matches_ok l i glyphs small inside) (first_ligature-Ends ls)

    by_first :
        (rest : Outcome ParseError (Option Ligature)) (found : Option Ligature)
        → Result rest
        → IsMatch i glyphs found
        → Result (elim found [ some l ↦ ok (some l) | none ↦ rest ])
    by_first rest none h e = h
    by_first rest (some l) h e = e

    by_entry :
        (rest : Outcome ParseError (Option Ligature)) (found : Option (List Ligature))
        → Result rest
        → Result (elim found [
          | none ↦ rest
          | some ligatures ↦ first_ligature merge m t ligatures i glyphs >>= λ ligature.
              elim ligature [ some l ↦ ok (some l) | none ↦ rest ]
        ])
    by_entry rest none h = h
    by_entry rest (some ls) h =
        Ends->>= (IsMatch i glyphs) (first_ligature merge m t ls i glyphs) _
          (first_ligature-Ends ls) (λ found e. by_first rest found h e)

    ligature_for-Ends :
        (subtables : List LigatureSubst) (g : ℕ)
        → Result (ligature_for merge m t subtables g i glyphs)
    unfolding ligature_for
    ligature_for-Ends [] g = tt
    ligature_for-Ends (s ∷ subtables) g =
        Ends->>= (IsMatch i glyphs) (entry_of s.coverage s.ligaturesets g) _
          (entry_of-Ends s.coverage s.ligaturesets g)
          (λ found u.
            by_entry (ligature_for merge m t subtables g i glyphs) found
              (ligature_for-Ends subtables g))

  -- What a ligature leaves has its components fewer.
  taken_size :
      (n matched : ℕ) (rest : List (RawGlyph T))
      → n ≤ length (kept (keep merge m t) rest)
      → length (skipped merge m t n matched rest) + length (left_over merge m t n rest) + n
        ≡ length rest
  taken_size zero matched rest h = omega arith
  taken_size (suc n) matched [] h = absurd (omega arith)
  taken_size (suc n) matched (x ∷ rest) h = elim (Bool-cases (keep merge m t x)) [
    | inl a ↦
        let fewer = taken_size n (matched + 1) rest (keeps_one merge m t x rest n a h) in
        rw a (omega (arith, fewer))
    | inr a ↦
        let same = taken_size (suc n) matched rest (keeps_none merge m t x rest (suc n) a h) in
        rw a (omega (arith, same))
  ]

  marked_size : (n : ℕ) (rest : List (RawGlyph T)) → length (marked merge m t n rest) ≡ length rest
  marked_size n [] = refl
  marked_size n (x ∷ rest) = elim (Bool-cases (keeps marks_only t x.glyph_index)) [
    | inl a ↦ rw a (ap suc (marked_size n rest))
    | inr a ↦ rw a refl
  ]

  module _ (subtables : List LigatureSubst) (before rest : List (RawGlyph T)) (g : RawGlyph T)
      (small : length (before ++ g ∷ rest) < 2 ^ 63) where
    -- The counts and the glyphs of a step: what is removed, and where the next step begins.
    abbrev pub IsStep : Option (ℕ × ℕ) × List (RawGlyph T) → Type 0
    IsStep (none, new) = new ≡ before ++ g ∷ rest
    IsStep (some (removed, skip), new) =
        (length new + removed ≡ length (before ++ g ∷ rest))
        × (length before + skip + 1 ≤ length new)

    applied :
        (l : Ligature)
        → ligature_matches merge m t l (length before) (before ++ g ∷ rest) ≡ ok true
        → Ends IsStep (
            ligature_apply merge m t l (length before) (before ++ g ∷ rest) >>= λ (ligated, skip).
            ok (some (length l.component_glyphs, skip), ligated))
    applied l h =
        let n = length l.component_glyphs in
        let sk = skipped merge m t n 0 rest in
        let lo = left_over merge m t n rest in
        let size = taken_size n 0 rest (components_there merge m t l before rest g small h) in
        let all = length-append before (g ∷ rest) in
        let tail = length-append sk (marked merge m t n lo) in
        let new =
          length-append before (ligated merge m t l g rest ∷ (sk ++ marked merge m t n lo)) in
        rw (ligature_apply-matches merge m t l before rest g small h) (
          omega (arith, size, all, tail, new, marked_size n lo),
          omega (arith, tail, new, marked_size n lo),
        )

    stepped :
        (found : Option Ligature)
        → IsMatch (length before) (before ++ g ∷ rest) found
        → Ends IsStep (elim found [
          | none ↦ ok (none, before ++ g ∷ rest)
          | some l ↦
              ligature_apply merge m t l (length before) (before ++ g ∷ rest) >>= λ (ligated, skip).
              ok (some (length l.component_glyphs, skip), ligated)
        ])
    stepped none h = refl
    stepped (some l) h = applied l h

    pub ligaturesubst-Ends :
        Ends IsStep (ligaturesubst merge m t subtables (length before) (before ++ g ∷ rest))
    unfolding ligaturesubst
    ligaturesubst-Ends =
        let inside : length before < length (before ++ g ∷ rest) =
          omega (arith, length-append before (g ∷ rest)) in
        rw (at-length before g rest) (
          Ends->>= IsStep
            (ligature_for merge m t subtables g.glyph_index (length before) (before ++ g ∷ rest)) _
            (ligature_for-Ends (length before) (before ++ g ∷ rest) small inside subtables
              g.glyph_index)
            stepped)
