-- ===== src/Glyf/Subset/Closure.antt =====
-- src/tables/glyf.rs, `GlyfTable::subset`: the loop that follows the components of the glyphs asked
-- for.
use allsorts.Base.{
  ℕ, zero, suc, ◌+◌, ◌^◌, ◌≤◌, ◌<◌, ◌≡◌, refl, sym, ap, subst, ◌∙◌, arith, ltb, ltb→lt, List, [],
  ◌∷◌, map, some, length, drop, drop-eq-nil, drop-get_elem?, get_elem?, take, get_elem?-within, All,
  Bool-cases, Option-cases, inl, inr,
}
use allsorts.Context.Find.{at_lem}
use allsorts.Error.{Ends, Ends->>=}
use allsorts.Glyf.{GlyfRecord, GlyfTable}
use allsorts.Glyf.Subset.{subset_record, subset_loop, subset}
use allsorts.Glyf.Subset.Missing.{missing-le}
use allsorts.Glyf.Subset.Places.{Extends, total}
use allsorts.Glyf.Subset.Record.{Subsetted, Subsetted-Extends, IsRecord, record_Made}

get_elem?-All :
    {A : Type 0} (P : A → Type 0) (xs : List A) (i : ℕ) (x : A)
    → All P xs
    → get_elem? xs i ≡ some x
    → P x
get_elem?-All P [] i x h e = absurd (cc)
get_elem?-All P (y ∷ xs) zero x (h, hs) e = subst P (cc) h
get_elem?-All P (y ∷ xs) (suc i) x (h, hs) e = get_elem?-All P xs i x hs e

take-Extends : (ids all : List ℕ) → Extends ids all → take (length ids) all ≡ ids
take-Extends [] all h = refl
take-Extends (x ∷ ids) [] h = absurd (cc (h 0 x refl))
take-Extends (x ∷ ids) (y ∷ all) h =
    let e = h 0 x refl in let rest = take-Extends ids all (λ i z f. h (suc i) z f) in cc (e, rest)

module _ (records : List GlyfRecord) where
  -- Each new record comes from the record with its old number.
  abbrev pub AllSubsetted : List ℕ → List ℕ → List GlyfRecord → Type 0
  AllSubsetted all [] [] = Unit {0}
  AllSubsetted all [] (r' ∷ rs') = ⊥
  AllSubsetted all (id ∷ ids) [] = ⊥
  AllSubsetted all (id ∷ ids) (r' ∷ rs') =
      ((r : GlyfRecord) × (get_elem? records id ≡ some r) × Subsetted all r r')
      × AllSubsetted all ids rs'

  abbrev Looped : ℕ → List ℕ → List (ℕ × GlyfRecord) × List ℕ → Type 0
  Looped i ids (pairs, all) =
      Extends ids all
      × (map (λ p. p.0) pairs ≡ drop i all)
      × AllSubsetted all (map (λ p. p.0) pairs) (map (λ p. p.1) pairs)

  loop_Ends :
      (fuel i : ℕ) (ids : List ℕ)
      → All IsRecord records
      → i ≤ length ids
      → total ids < fuel + i
      → Ends (Looped i ids) (subset_loop records fuel i ids)
  unfolding subset_loop
  loop_Ends zero i ids h le enough = absurd (omega arith)
  loop_Ends (suc fuel) i ids h le enough = elim (Bool-cases (ltb i (length ids))) [
    | inr end ↦
        rw (subset_loop, end) ((λ j x f. f), sym (drop-eq-nil i ids (ground (arith, end))), tt)
    | inl more ↦
        let (id, e) = get_elem?-within ids i (ltb→lt i (length ids) more) in
        rw (subset_loop, more, at_lem ids i id e)
          (elim (Option-cases (get_elem? records id)) [
            | inl none_there ↦ rw none_there tt
            | inr (r, there) ↦ rw there (
                Ends->>= (Looped i ids) (subset_record r ids) _
                  (record_Made r ids (get_elem?-All IsRecord records id r h there))
                  (λ made m.
                    Ends->>= (Looped i ids) (subset_loop records fuel (i + 1) made.0) _
                      (loop_Ends fuel (i + 1) made.0 h
                        (omega (arith, m.3, ltb→lt i (length ids) more)) (omega (arith, m.2)))
                      (λ rest l. (
                        (λ j x f. l.0 j x (m.0 j x f)),
                        ap (λ t. id ∷ t) l.1
                            ∙ sym (drop-get_elem? i rest.1 (l.0 i id (m.0 i id e))),
                        ((r, there, Subsetted-Extends l.0 m.1), l.2),
                      ))))
          ])
  ]

-- The numbers asked for come first in `old`, and each new record comes from the record with its old
-- number, its components named by their places in `old`.
abbrev pub IsSubset : GlyfTable → List ℕ → GlyfTable × List ℕ → Type 0
IsSubset table glyph_ids (new, old) =
    (take (length glyph_ids) old ≡ glyph_ids) × AllSubsetted table.records old old new.records

-- For a table whose records lie in the font or hold glyphs as `read_glyph` gives them, and every
-- list of glyph numbers, `subset` ends, within one round for each number asked for and for each
-- number of 16 bits, in an error, or in as many records as numbers: the numbers asked for come
-- first, and each new record is the old record of its number, where that is not composite, or the
-- composite glyph that it parses into, each component naming the place of its glyph among the
-- numbers, modulo 2 ^ 16. The code marked unreachable is not reached, and no index is out of range.
pub subset-Ends :
    (table : GlyfTable) (glyph_ids : List ℕ)
    → All IsRecord table.records
    → Ends (IsSubset table glyph_ids) (subset table glyph_ids)
unfolding subset
subset-Ends table glyph_ids h =
    Ends->>= (IsSubset table glyph_ids)
      (subset_loop table.records (length glyph_ids + 2 ^ 16 + 1) 0 glyph_ids) _
      (loop_Ends table.records (length glyph_ids + 2 ^ 16 + 1) 0 glyph_ids h (omega arith)
        (omega (arith, missing-le (2 ^ 16) glyph_ids)))
      (λ made l.
        let e = l.1 in
        (
          subst (λ all. take (length glyph_ids) all ≡ glyph_ids) (sym e)
              (take-Extends glyph_ids made.1 l.0),
          subst
              (λ all.
                AllSubsetted table.records all (map (λ p. p.0) made.0) (map (λ p. p.1) made.0))
              (sym e) l.2,
        ))
