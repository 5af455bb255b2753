-- ===== src/Glyf/Subset/Places.antt =====
-- src/tables/glyf.rs, `add_glyph`: the places that the components of a glyph get among the numbers.
use allsorts.Base.{
  ℕ, zero, suc, ◌+◌, ◌%◌, ◌^◌, ◌≤◌, ◌<◌, ◌≡◌, refl, ◌∙◌, arith, ◌==◌, List, [], ◌∷◌, ◌++◌, some,
  length, length-append, get_elem?, All, Bool-cases, Option-cases, inl, inr,
}
use allsorts.Glyf.{CompositeGlyph}
use allsorts.Glyf.Safety.{HasIndex}
use allsorts.Glyf.Subset.{place, add_components}
use allsorts.Glyf.Subset.Missing.{missing, missing-push, position-contains}
use allsorts.Scripts.Joining.{position}

-- Every number of the first list stands at its place in the second.
abbrev pub Extends : List ℕ → List ℕ → Type 0
Extends ids all = (i x : ℕ) → get_elem? ids i ≡ some x → get_elem? all i ≡ some x

get_elem?-push :
    (ids : List ℕ) (y i x : ℕ) → get_elem? ids i ≡ some x → get_elem? (ids ++ y ∷ []) i ≡ some x
get_elem?-push [] y i x e = absurd (cc)
get_elem?-push (z ∷ ids) y zero x e = e
get_elem?-push (z ∷ ids) y (suc i) x e = get_elem?-push ids y i x e

get_elem?-last : (ids : List ℕ) (y : ℕ) → get_elem? (ids ++ y ∷ []) (length ids) ≡ some y
get_elem?-last [] y = refl
get_elem?-last (z ∷ ids) y = get_elem?-last ids y

get_elem?-position :
    (ids : List ℕ) (y i : ℕ) → position (λ x. x == y) ids ≡ some i → get_elem? ids i ≡ some y
get_elem?-position [] y i e = absurd (cc)
get_elem?-position (z ∷ ids) y i e = elim (Bool-cases (z == y)) [
  | inl k ↦ ground (arith, e, k)
  | inr k ↦ elim (Option-cases (position (λ x. x == y) ids)) [
    | inl f ↦ ground (arith, e, k, f)
    | inr (j, f) ↦ ground (arith, e, k, f, get_elem?-position ids y j f)
  ]
]

-- The numbers that are there, and those of 16 bits that are not.
abbrev pub total : List ℕ → ℕ
total ids = length ids + missing (2 ^ 16) ids

-- What placing a number keeps
abbrev pub Placed : ℕ → List ℕ → List ℕ × ℕ → Type 0
Placed id ids (ids', k) =
    Extends ids ids'
    × (get_elem? ids' k ≡ some id)
    × (total ids' ≡ total ids)
    × (length ids ≤ length ids')

place-Placed : (id : ℕ) (ids : List ℕ) → id < 2 ^ 16 → Placed id ids (place id ids)
unfolding place
place-Placed id ids h = elim (Option-cases (position (λ x. x == id) ids)) [
  | inr (k, e) ↦ rw (place, e) ((λ i x f. f), get_elem?-position ids id k e, refl, omega arith)
  | inl e ↦
      rw (place, e)
        (
          (λ i x f. get_elem?-push ids id i x f),
          get_elem?-last ids id,
          omega (
            arith,
            length-append ids (id ∷ []),
            missing-push (2 ^ 16) id ids h (position-contains id ids e),
          ),
          omega (arith, length-append ids (id ∷ [])),
        )
]

-- The new component names the place of the old one's glyph.
abbrev pub Renamed : List ℕ → CompositeGlyph → CompositeGlyph → Type 0
Renamed all glyph glyph' =
    (k : ℕ) × (get_elem? all k ≡ some glyph.glyph_index)
    × (glyph' ≡ record glyph { glyph_index = k % 2 ^ 16 })

abbrev pub AllRenamed : List ℕ → List CompositeGlyph → List CompositeGlyph → Type 0
AllRenamed all [] [] = Unit {0}
AllRenamed all [] (g' ∷ gs') = ⊥
AllRenamed all (g ∷ gs) [] = ⊥
AllRenamed all (g ∷ gs) (g' ∷ gs') = Renamed all g g' × AllRenamed all gs gs'

pub AllRenamed-Extends :
    (ids all : List ℕ) (gs gs' : List CompositeGlyph)
    → Extends ids all
    → AllRenamed ids gs gs'
    → AllRenamed all gs gs'
AllRenamed-Extends ids all [] [] h r = tt
AllRenamed-Extends ids all [] (g' ∷ gs') h r = r
AllRenamed-Extends ids all (g ∷ gs) [] h r = r
AllRenamed-Extends ids all (g ∷ gs) (g' ∷ gs') h ((k, e, same), rs) =
    ((k, h k g.glyph_index e, same), AllRenamed-Extends ids all gs gs' h rs)

abbrev pub Added : List CompositeGlyph → List ℕ → List ℕ × List CompositeGlyph → Type 0
Added gs ids (ids', gs') =
    Extends ids ids'
    × AllRenamed ids' gs gs'
    × (total ids' ≡ total ids)
    × (length ids ≤ length ids')

pub add_components-Added :
    (gs : List CompositeGlyph) (ids : List ℕ)
    → All HasIndex gs
    → Added gs ids (add_components gs ids)
unfolding add_components
add_components-Added [] ids h = ((λ i x f. f), tt, refl, omega arith)
add_components-Added (g ∷ gs) ids (h, hs) =
    let p = place-Placed g.glyph_index ids h in
    let placed = place g.glyph_index ids in
    let r = add_components-Added gs placed.0 hs in
    (
      (λ i x f. r.0 i x (p.0 i x f)),
      ((placed.1, r.0 placed.1 g.glyph_index p.1, refl), r.1),
      r.2 ∙ p.2,
      omega (arith, r.3, p.3),
    )
