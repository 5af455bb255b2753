-- ===== src/Woff2/Lut/Formula.antt =====
-- The table that decodes the coordinates, in closed form.
use allsorts.Base.{ℕ, zero, suc, ◌+◌, ◌-◌, ◌*◌, ◌/◌, ◌%◌, ◌<◌, ◌≡◌, refl, arith, ap, ◌∙◌}
use allsorts.Base.{Bool, false, List, [], ◌∷◌, some, ltb, ◌==◌, if◌then◌else◌, get_elem?}
use allsorts.Woff2.Lut.{XyTriplet, triplet, coord_lut}

-- A sign bit that is clear makes the coordinate negative.
abbrev pub negative : ℕ → Bool
negative sign = sign % 2 == 0

abbrev pub triplet_of : ℕ → XyTriplet
triplet_of i =
    if ltb i 10
    then triplet 1 0 8 0 (i / 2 * 256) false (negative i)
    else if ltb i 20
    then triplet 1 8 0 ((i - 10) / 2 * 256) 0 (negative i) false
    else if ltb i 84
    then triplet 1 4 4 (1 + (i - 20) / 16 * 16) (1 + (i - 20) / 4 % 4 * 16) (negative i)
        (negative (i / 2))
    else if ltb i 120
    then triplet 2 8 8 (1 + (i - 84) / 12 * 256) (1 + (i - 84) % 12 / 4 * 256) (negative i)
        (negative (i / 2))
    else if ltb i 124
    then triplet 3 12 12 0 0 (negative i) (negative (i / 2))
    else triplet 4 16 16 0 0 (negative i) (negative (i / 2))

abbrev table_from : ℕ → ℕ → List XyTriplet
table_from zero i = []
table_from (suc n) i = triplet_of i ∷ table_from n (i + 1)

coord_lut-table : coord_lut ≡ table_from 128 0
unfolding coord_lut
coord_lut-table = refl

get_elem?-table : (n i k : ℕ) → k < n → get_elem? (table_from n i) k ≡ some (triplet_of (i + k))
get_elem?-table zero i k h = elim h [ ]
get_elem?-table (suc n) i zero h =
    let e : i ≡ i + 0 = omega arith in ap (λ j. some (triplet_of j)) e
get_elem?-table (suc n) i (suc k) h =
    let e : i + 1 + k ≡ i + suc k = omega arith in
    get_elem?-table n (i + 1) k (omega arith) ∙ ap (λ j. some (triplet_of j)) e

-- For every index below 128 the row of `coord_lut` is the one that the closed formula of the format
-- gives.
pub coord_lut-triplet_of : (i : ℕ) → i < 128 → get_elem? coord_lut i ≡ some (triplet_of i)
coord_lut-triplet_of i h =
    let e : 0 + i ≡ i = omega arith in
    ap (λ t. get_elem? t i) coord_lut-table
    ∙ get_elem?-table 128 0 i h
    ∙ ap (λ j. some (triplet_of j)) e
