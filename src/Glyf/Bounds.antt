-- ===== src/Glyf/Bounds.antt =====
-- src/tables/glyf.rs: the bounding box of some points.
use allsorts.Base.{◌≡◌, refl, arith, if◌then◌else◌, List, [], ◌∷◌, All}
use allsorts.Base.Int.{ℤ, ◌≤ℤ◌, ltb_ℤ}
use allsorts.Error.{Outcome, ok, panic, ParseError}
use allsorts.Glyf.{Point, BoundingBox, SimpleGlyph}

-- The closure of the fold
unfoldable pub widened : BoundingBox → Point → BoundingBox
widened box p = record {
  x_min = if ltb_ℤ p.x box.x_min then p.x else box.x_min;
  x_max = if ltb_ℤ box.x_max p.x then p.x else box.x_max;
  y_min = if ltb_ℤ p.y box.y_min then p.y else box.y_min;
  y_max = if ltb_ℤ box.y_max p.y then p.y else box.y_max;
}

unfoldable pub fold_points : BoundingBox → List Point → BoundingBox
unfolding widened
fold_points box [] = box
fold_points box (p ∷ ps) = fold_points (widened box p) ps

abbrev pub box_of : Point → BoundingBox
box_of p = record { x_min = p.x; x_max = p.x; y_min = p.y; y_max = p.y }

-- The assertion fails where there are no points.
unfoldable pub from_points : List Point → Outcome ParseError BoundingBox
unfolding fold_points
from_points [] = panic
from_points (p ∷ ps) = ok (fold_points (box_of p) (p ∷ ps))

-- `SimpleGlyph::bounding_box`
unfoldable pub bounding_box : SimpleGlyph → Outcome ParseError BoundingBox
unfolding from_points
bounding_box glyph = from_points glyph.coordinates

pub record Contains (box : BoundingBox) (p : Point) : Type 0 where
  pub left : box.x_min ≤ℤ p.x
  pub right : p.x ≤ℤ box.x_max
  pub below : box.y_min ≤ℤ p.y
  pub above : p.y ≤ℤ box.y_max

pub record LiesIn (inner outer : BoundingBox) : Type 0 where
  pub left : outer.x_min ≤ℤ inner.x_min
  pub right : inner.x_max ≤ℤ outer.x_max
  pub below : outer.y_min ≤ℤ inner.y_min
  pub above : inner.y_max ≤ℤ outer.y_max

lesser_of : (a b : ℤ) → ((if ltb_ℤ a b then a else b) ≤ℤ a) × ((if ltb_ℤ a b then a else b) ≤ℤ b)
lesser_of a b = ground arith

greater_of : (a b : ℤ) → (a ≤ℤ (if ltb_ℤ b a then a else b)) × (b ≤ℤ (if ltb_ℤ b a then a else b))
greater_of a b = ground arith

lesser_bounded : (a b c : ℤ) → c ≤ℤ a → c ≤ℤ b → c ≤ℤ (if ltb_ℤ a b then a else b)
lesser_bounded a b c h k = ground arith

greater_bounded : (a b c : ℤ) → a ≤ℤ c → b ≤ℤ c → (if ltb_ℤ b a then a else b) ≤ℤ c
greater_bounded a b c h k = ground arith

widened-Contains : (box : BoundingBox) (p : Point) → Contains (widened box p) p
unfolding widened
widened-Contains box p = record {
  left = (lesser_of p.x box.x_min).0;
  right = (greater_of p.x box.x_max).0;
  below = (lesser_of p.y box.y_min).0;
  above = (greater_of p.y box.y_max).0;
}

widened-LiesIn : (box : BoundingBox) (p : Point) → LiesIn box (widened box p)
unfolding widened
widened-LiesIn box p = record {
  left = (lesser_of p.x box.x_min).1;
  right = (greater_of p.x box.x_max).1;
  below = (lesser_of p.y box.y_min).1;
  above = (greater_of p.y box.y_max).1;
}

widened_least :
    (box outer : BoundingBox) (p : Point)
    → LiesIn box outer
    → Contains outer p
    → LiesIn (widened box p) outer
unfolding widened
widened_least box outer p h k = record {
  left = lesser_bounded p.x box.x_min outer.x_min k.left h.left;
  right = greater_bounded p.x box.x_max outer.x_max k.right h.right;
  below = lesser_bounded p.y box.y_min outer.y_min k.below h.below;
  above = greater_bounded p.y box.y_max outer.y_max k.above h.above;
}

LiesIn-trans : {a b c : BoundingBox} → LiesIn a b → LiesIn b c → LiesIn a c
LiesIn-trans h k = record {
  left = omega (arith, h.left, k.left);
  right = omega (arith, h.right, k.right);
  below = omega (arith, h.below, k.below);
  above = omega (arith, h.above, k.above);
}

LiesIn-Contains : {a b : BoundingBox} {p : Point} → LiesIn a b → Contains a p → Contains b p
LiesIn-Contains h k = record {
  left = omega (arith, h.left, k.left);
  right = omega (arith, h.right, k.right);
  below = omega (arith, h.below, k.below);
  above = omega (arith, h.above, k.above);
}

fold_points-LiesIn : (box : BoundingBox) (ps : List Point) → LiesIn box (fold_points box ps)
unfolding fold_points
fold_points-LiesIn box [] = record {
  left = omega arith;
  right = omega arith;
  below = omega arith;
  above = omega arith;
}
fold_points-LiesIn box (p ∷ ps) =
    LiesIn-trans (widened-LiesIn box p) (fold_points-LiesIn (widened box p) ps)

fold_points-Contains :
    (box : BoundingBox) (ps : List Point) → All (Contains (fold_points box ps)) ps
unfolding fold_points
fold_points-Contains box [] = tt
fold_points-Contains box (p ∷ ps) = (
  LiesIn-Contains (fold_points-LiesIn (widened box p) ps) (widened-Contains box p),
  fold_points-Contains (widened box p) ps,
)

fold_points_least :
    (box outer : BoundingBox) (ps : List Point)
    → LiesIn box outer
    → All (Contains outer) ps
    → LiesIn (fold_points box ps) outer
unfolding fold_points
fold_points_least box outer [] h k = h
fold_points_least box outer (p ∷ ps) h (k, ks) =
    fold_points_least (widened box p) outer ps (widened_least box outer p h k) ks

-- For a glyph with at least one point and every box that holds its points, `bounding_box` ends in a
-- box that holds all of the points and lies in that box: it is the smallest that holds them.
pub bounding_box-least :
    (glyph : SimpleGlyph) (p : Point) (ps : List Point) (outer : BoundingBox)
    → glyph.coordinates ≡ p ∷ ps
    → All (Contains outer) (p ∷ ps)
    → (box : BoundingBox) × (bounding_box glyph ≡ ok box)
      × All (Contains box) glyph.coordinates
      × LiesIn box outer
unfolding bounding_box from_points
bounding_box-least glyph p ps outer e (h, hs) = rw e (
  fold_points (box_of p) (p ∷ ps),
  refl,
  fold_points-Contains (box_of p) (p ∷ ps),
  fold_points_least (box_of p) outer (p ∷ ps)
      (record { left = h.left; right = h.right; below = h.below; above = h.above }) (h, hs),
)
