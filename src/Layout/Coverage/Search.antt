-- ===== src/Layout/Coverage/Search.antt =====
-- The binary search against the position of the glyph in the list.
use allsorts.Base.{
  get_elem?-within, ℕ, zero, suc, ◌+◌, ◌-◌, ◌/◌, ◌%◌, ◌^◌, ◌≤◌, ◌<◌, ◌≡◌, refl, ap, sym, ◌∙◌, arith,
  ◌⊎◌, ◌==◌, ltb, if◌then◌else◌, List, [], ◌∷◌, Option, none, some, length, get_elem?, All,
  Option-cases, Bool-cases, inl, inr, ==_iff, ltb→lt, subst,
}
use allsorts.Layout.Coverage.{search_between, binary_search, glyph_coverage_value, format1}

-- The position of a value in a list.
abbrev pub index_of : List ℕ → ℕ → Option ℕ
index_of [] g = none
index_of (x ∷ xs) g =
    if x == g then some 0 else elim (index_of xs g) [ some i ↦ some (suc i) | none ↦ none ]

-- Each value is below all those that follow it.
abbrev pub IsAscending : List ℕ → Type 0
IsAscending [] = Unit {0}
IsAscending (x ∷ xs) = All (λ y. x < y) xs × IsAscending xs

some_inj : {x y : ℕ} → some x ≡ some y → x ≡ y
some_inj {x} e = ap (λ o. elim o [ some v ↦ v | none ↦ x ]) e

All-get : (P : ℕ → Type 0) (xs : List ℕ) (i x : ℕ) → All P xs → get_elem? xs i ≡ some x → P x
All-get P [] i x h e = cc
All-get P (y ∷ xs) zero x h e = subst P (some_inj e) h.0
All-get P (y ∷ xs) (suc i) x h e = All-get P xs i x h.1 e

get_elem?-ascending :
    (xs : List ℕ) (i j x y : ℕ)
    → IsAscending xs
    → i < j
    → get_elem? xs i ≡ some x
    → get_elem? xs j ≡ some y
    → x < y
get_elem?-ascending [] i j x y h lt e f = cc
get_elem?-ascending (z ∷ xs) i zero x y h lt e f = absurd (omega arith)
get_elem?-ascending (z ∷ xs) zero (suc j) x y h lt e f =
    subst (λ w. w < y) (some_inj e) (All-get (λ w. z < w) xs j y h.0 f)
get_elem?-ascending (z ∷ xs) (suc i) (suc j) x y h lt e f =
    get_elem?-ascending xs i j x y h.1 (omega arith) e f

index_of-get_elem? :
    (xs : List ℕ) (i g : ℕ) → IsAscending xs → get_elem? xs i ≡ some g → index_of xs g ≡ some i
index_of-get_elem? [] i g h e = cc
index_of-get_elem? (x ∷ xs) zero g h e = ground arith
index_of-get_elem? (x ∷ xs) (suc i) g h e =
    let lt = get_elem?-ascending (x ∷ xs) 0 (suc i) x g h (omega arith) refl e in
    ground (arith, index_of-get_elem? xs i g h.1 e)

index_of-absent :
    (xs : List ℕ) (g : ℕ) → ((i : ℕ) → get_elem? xs i ≡ some g → ⊥) → index_of xs g ≡ none
index_of-absent [] g h = refl
index_of-absent (x ∷ xs) g h = elim (Bool-cases (x == g)) [
  | inl same ↦ absurd (h 0 (ap some ((==_iff x g).0 same)))
  | inr other ↦ rw (other, index_of-absent xs g (λ i. h (suc i))) refl
]

absent : (xs : List ℕ) (i x : ℕ) → length xs ≤ i → get_elem? xs i ≡ some x → ⊥
absent [] i x b e = cc
absent (y ∷ xs) zero x b e = absurd (omega arith)
absent (y ∷ xs) (suc i) x b e = absent xs i x (omega arith) e

-- The values before an interval are below the target and those behind it are above.
record IsNarrowed (xs : List ℕ) (g left right : ℕ) : Type 0 where
  low : (i x : ℕ) → i < left → get_elem? xs i ≡ some x → x < g
  high : (i x : ℕ) → right ≤ i → get_elem? xs i ≡ some x → g < x

module _ (xs : List ℕ) (g : ℕ) (h : IsAscending xs) where
  narrow_above :
      (left right middle x : ℕ)
      → IsNarrowed xs g left right
      → get_elem? xs middle ≡ some x
      → x < g
      → IsNarrowed xs g (middle + 1) right
  narrow_above left right middle x n e lt = record {
    low = λ i y b f. elim (upto i middle b) [
      | inl same ↦ let k = some_inj (sym f ∙ ap (get_elem? xs) same ∙ e) in omega arith
      | inr before ↦ let k = get_elem?-ascending xs i middle y x h before f e in omega arith
    ];
    high = n.high;
  }
    where
      upto : (i m : ℕ) → i < m + 1 → (i ≡ m) ⊎ (i < m)
      upto i m b = omega arith

  narrow_below :
      (left right middle x : ℕ)
      → IsNarrowed xs g left right
      → get_elem? xs middle ≡ some x
      → g < x
      → IsNarrowed xs g left middle
  narrow_below left right middle x n e gt = record {
    low = n.low;
    high = λ i y b f. elim (from i middle b) [
      | inl same ↦ let k = some_inj (sym f ∙ ap (get_elem? xs) same ∙ e) in omega arith
      | inr behind ↦ let k = get_elem?-ascending xs middle i x y h behind e f in omega arith
    ];
  }
    where
      from : (i m : ℕ) → m ≤ i → (i ≡ m) ⊎ (m < i)
      from i m b = omega arith

  closed : (left right : ℕ) → IsNarrowed xs g left right → right ≤ left → index_of xs g ≡ none
  closed left right n empty = index_of-absent xs g (λ i e. elim (side i left) [
    | inl before ↦ let k = n.low i g before e in absurd (omega arith)
    | inr behind ↦ let k = n.high i g (omega arith) e in absurd (omega arith)
  ])
    where
      side : (i l : ℕ) → (i < l) ⊎ (l ≤ i)
      side i l = omega arith

  search_between_lem :
      (fuel left right : ℕ)
      → IsNarrowed xs g left right
      → right - left ≤ fuel
      → right ≤ length xs
      → search_between fuel xs g left right ≡ index_of xs g
  unfolding search_between
  search_between_lem zero left right n fits b = sym (closed left right n (omega arith))
  search_between_lem (suc fuel) left right n fits b = elim (Bool-cases (ltb left right)) [
    | inl inside ↦
        let m = left + (right - left) / 2 in
        let some_left = ltb→lt left right inside in
        let (x, e) = get_elem?-within xs m (omega arith) in
        rw (inside, e)
          (elim (compared x g) [
            | inl same ↦
                rw ((==_iff x g).1 same) (sym (index_of-get_elem? xs m g h (e ∙ ap some same)))
            | inr (inl lt) ↦
                let rest =
                  search_between_lem fuel (m + 1) right (narrow_above left right m x n e lt)
                    (omega arith) b in
                ground (arith, rest)
            | inr (inr gt) ↦
                let rest =
                  search_between_lem fuel left m (narrow_below left right m x n e gt) (omega arith)
                    (omega arith) in
                ground (arith, rest)
          ])
    | inr outside ↦ rw outside (sym (closed left right n (ground arith)))
  ]
    where
      compared : (x g : ℕ) → (x ≡ g) ⊎ ((x < g) ⊎ (g < x))
      compared x g = omega arith

whole : (xs : List ℕ) (g : ℕ) → IsNarrowed xs g 0 (length xs)
whole xs g = record {
  low = λ i x b e. absurd (omega arith);
  high = λ i x b e. absurd (absent xs i x b e);
}

-- On a list in strictly ascending order `binary_search` ends, within as many steps as the list has
-- elements, and gives the position of the value, or nothing where the list does not hold it.
pub binary_search-index_of :
    (xs : List ℕ) (g : ℕ) → IsAscending xs → binary_search xs g ≡ index_of xs g
unfolding binary_search
binary_search-index_of xs g h =
    search_between_lem xs g h (length xs) 0 (length xs) (whole xs g) (omega arith) (omega arith)

pub index_of-bound : (xs : List ℕ) (g i : ℕ) → index_of xs g ≡ some i → i < length xs
index_of-bound [] g i e = cc
index_of-bound (x ∷ xs) g i e = elim (Option-cases (index_of xs g)) [
  | inl f ↦ ground (arith, f)
  | inr (j, f) ↦ ground (arith, f, index_of-bound xs g j f)
]

-- On a list of at most 2 ^ 16 glyphs in strictly ascending order the coverage of format 1, whose
-- binary search takes at most as many steps as the list has glyphs, gives the position of the glyph
-- in the list, or nothing where the list does not hold it.
pub glyph_coverage_value-index_of :
    (glyph_array : List ℕ) (glyph : ℕ)
    → IsAscending glyph_array
    → length glyph_array ≤ 2 ^ 16
    → glyph_coverage_value (format1 glyph_array) glyph ≡ index_of glyph_array glyph
unfolding glyph_coverage_value
glyph_coverage_value-index_of xs g h l = elim (Option-cases (index_of xs g)) [
  | inl e ↦ rw (glyph_coverage_value, binary_search-index_of xs g h, e) refl
  | inr (i, e) ↦
      let small : i % 2 ^ 16 ≡ i = omega (arith, index_of-bound xs g i e) in
      rw (glyph_coverage_value, binary_search-index_of xs g h, e, small) refl
]
