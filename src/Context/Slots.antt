-- ===== src/Context/Slots.antt =====
-- The entries of a table as tests on glyphs, and glyphs that satisfy them in their order.
use allsorts.Base.{
  ℕ, zero, suc, ◌+◌, ◌≡◌, refl, ap, sym, ◌∙◌, arith, ◌==◌, ◌&&◌, Bool, true, false, List, [], ◌∷◌,
  ◌++◌, Option, none, some, length, get_elem?, drop, map, length-map, get_elem?-drop, drop-drop,
  Bool-cases, inl, inr,
}
use allsorts.Error.{Outcome, ParseError, ok, ◌>>=◌}
use allsorts.Gdef.Classes.{class_of, glyph_class_value-class_of}
use allsorts.Layout.Coverage.{glyph_coverage_value}
use allsorts.Context.{
  GlyphTable, empty, by_id, by_class_def, by_coverage, table_len, is_some, at, check_glyph_table,
}

-- The tests of a table, one for each entry.
abbrev pub slots : GlyphTable → List (ℕ → Bool)
slots empty = []
slots (by_id arr) = map (λ x g. x == g) arr
slots (by_class_def d arr) = map (λ x g. class_of d g == x) arr
slots (by_coverage vec) = map (λ v g. is_some (glyph_coverage_value v g)) vec

-- The glyphs begin with one for each test, which satisfies it.
abbrev pub begins_with : List (ℕ → Bool) → List ℕ → Bool
begins_with [] gs = true
begins_with (p ∷ ps) [] = false
begins_with (p ∷ ps) (g ∷ gs) = p g && begins_with ps gs

pub length-slots : (t : GlyphTable) → table_len t ≡ length (slots t)
length-slots empty = refl
length-slots (by_id arr) = sym (length-map arr (λ x g. x == g))
length-slots (by_class_def d arr) = sym (length-map arr (λ x g. class_of d g == x))
length-slots (by_coverage vec) = sym (length-map vec (λ v g. is_some (glyph_coverage_value v g)))

abbrev answer : ℕ → Option (ℕ → Bool) → Outcome ParseError Bool
answer g none = ok false
answer g (some p) = ok (p g)

at-map :
    {A : Type 0} (f : A → ℕ → Bool) (xs : List A) (i : ℕ) (p : ℕ → Bool) (g : ℕ)
    → get_elem? (map f xs) i ≡ some p
    → (at xs i >>= λ x. ok (f x g)) ≡ ok (p g)
at-map f [] i p g e = cc
at-map f (x ∷ xs) zero p g e = ap (answer g) e
at-map f (x ∷ xs) (suc i) p g e = at-map f xs i p g e

pub check_lem :
    (t : GlyphTable) (i : ℕ) (p : ℕ → Bool) (g : ℕ)
    → get_elem? (slots t) i ≡ some p
    → check_glyph_table t i g ≡ ok (p g)
unfolding check_glyph_table
check_lem empty i p g e = cc
check_lem (by_id arr) i p g e = at-map (λ x h. x == h) arr i p g e
check_lem (by_class_def d arr) i p g e =
    rw (glyph_class_value-class_of d g) (at-map (λ x h. class_of d h == x) arr i p g e)
check_lem (by_coverage vec) i p g e = at-map (λ v h. is_some (glyph_coverage_value v h)) vec i p g e

pub drop_head :
    {A : Type 0} (n : ℕ) (xs : List A) {x : A} {rest : List A}
    → drop n xs ≡ x ∷ rest
    → get_elem? xs n ≡ some x
drop_head n xs e =
    let k : n + 0 ≡ n = omega arith in
    ap (get_elem? xs) (sym k) ∙ sym (get_elem?-drop n 0 xs) ∙ ap (λ ys. get_elem? ys 0) e

pub drop_tail :
    {A : Type 0} (n : ℕ) (xs : List A) {x : A} {rest : List A}
    → drop n xs ≡ x ∷ rest
    → drop (n + 1) xs ≡ rest
drop_tail n xs e = sym (drop-drop 1 n xs) ∙ ap (drop 1) e

pub begins_with-append :
    (ps qs : List (ℕ → Bool)) (gs : List ℕ)
    → begins_with (ps ++ qs) gs ≡ (begins_with ps gs && begins_with qs (drop (length ps) gs))
begins_with-append [] qs gs = refl
begins_with-append (p ∷ ps) qs [] = refl
begins_with-append (p ∷ ps) qs (g ∷ gs) = elim (Bool-cases (p g)) [
  | inl good ↦ rw good (begins_with-append ps qs gs)
  | inr bad ↦ rw bad refl
]
