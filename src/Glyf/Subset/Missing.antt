-- ===== src/Glyf/Subset/Missing.antt =====
-- The numbers below a bound that a list does not have yet.
use allsorts.Base.{
  ℕ, zero, suc, ◌+◌, ◌≤◌, ◌<◌, ◌≡◌, refl, arith, ◌==◌, ◌||◌, if◌then◌else◌, Bool, false, List, [],
  ◌∷◌, ◌++◌, none, Bool-cases, Option-cases, inl, inr,
}
use allsorts.Scripts.Joining.{position}

abbrev pub contains : ℕ → List ℕ → Bool
contains x [] = false
contains x (y ∷ ys) = (y == x) || contains x ys

pub missing : ℕ → List ℕ → ℕ
missing zero ids = 0
missing (suc n) ids = (if contains n ids then 0 else 1) + missing n ids

pub missing-le : (n : ℕ) (ids : List ℕ) → missing n ids ≤ n
unfolding missing
missing-le zero ids = omega arith
missing-le (suc n) ids = elim (Bool-cases (contains n ids)) [
  | inl e ↦ rw e (omega (arith, missing-le n ids))
  | inr e ↦ rw e (omega (arith, missing-le n ids))
]

contains-push : (x y : ℕ) (ids : List ℕ) → contains x (ids ++ y ∷ []) ≡ (contains x ids || (y == x))
contains-push x y [] = ground arith
contains-push x y (z ∷ ids) = ground (arith, contains-push x y ids)

missing-push_above : (n y : ℕ) (ids : List ℕ) → n ≤ y → missing n (ids ++ y ∷ []) ≡ missing n ids
unfolding missing
missing-push_above zero y ids h = refl
missing-push_above (suc n) y ids h =
    ground (arith, contains-push n y ids, missing-push_above n y ids)

pub missing-push :
    (n y : ℕ) (ids : List ℕ)
    → y < n
    → contains y ids ≡ false
    → missing n (ids ++ y ∷ []) + 1 ≡ missing n ids
unfolding missing
missing-push zero y ids h e = absurd (omega arith)
missing-push (suc n) y ids h e = elim (Bool-cases (n == y)) [
  | inl k ↦ ground (arith, contains-push n y ids, missing-push_above n y ids)
  | inr k ↦ ground (arith, contains-push n y ids, missing-push n y ids)
]

pub position-contains :
    (y : ℕ) (ids : List ℕ) → position (λ x. x == y) ids ≡ none → contains y ids ≡ false
position-contains y [] e = refl
position-contains y (z ∷ ids) e = elim (Option-cases (position (λ x. x == y) ids)) [
  | inl f ↦ ground (arith, e, f, position-contains y ids f)
  | inr (i, f) ↦ ground (arith, e, f)
]
