-- ===== src/Scripts/Joining/Zipper.antt =====
-- Lists seen from a position.
use allsorts.Base.{
  ℕ, suc, ◌+◌, ◌≡◌, refl, ap, ap₂, sym, ◌∙◌, List, [], ◌∷◌, ◌++◌, length, get_elem?, some,
  length-append,
}
use mathlib.Core.List.{append_assoc}
use allsorts.Context.{at}
use allsorts.Context.Find.{at_lem}
use allsorts.Error.{ok}
use allsorts.Scripts.Joining.{set_at}

module _ {A : Type 0} where
  get_elem?-length :
      (xs : List A) (x : A) (ys : List A) → get_elem? (xs ++ x ∷ ys) (length xs) ≡ some x
  get_elem?-length [] x ys = refl
  get_elem?-length (z ∷ xs) x ys = get_elem?-length xs x ys

  pub at-length : (xs : List A) (x : A) (ys : List A) → at (xs ++ x ∷ ys) (length xs) ≡ ok x
  at-length xs x ys = at_lem (xs ++ x ∷ ys) (length xs) x (get_elem?-length xs x ys)

  pub set_at-length :
      (xs : List A) (x y : A) (ys : List A) → set_at (xs ++ x ∷ ys) (length xs) y ≡ xs ++ y ∷ ys
  set_at-length [] x y ys = refl
  set_at-length (z ∷ xs) x y ys = ap (λ l. z ∷ l) (set_at-length xs x y ys)

  -- A position behind the first.
  module _ (done : List A) (p : A) (mid : List A) (g : A) (rest : List A) (i : ℕ)
      (e : length done + suc (length mid) ≡ i) where
    further : (h : A) → (done ++ p ∷ mid) ++ h ∷ rest ≡ done ++ p ∷ (mid ++ h ∷ rest)
    further h = append_assoc done (p ∷ mid) (h ∷ rest)

    index : length (done ++ p ∷ mid) ≡ i
    index = length-append done (p ∷ mid) ∙ e

    pub at-behind : at (done ++ p ∷ (mid ++ g ∷ rest)) i ≡ ok g
    at-behind = ap₂ at (sym (further g)) (sym index) ∙ at-length (done ++ p ∷ mid) g rest

    pub set_at-behind :
        (h : A) → set_at (done ++ p ∷ (mid ++ g ∷ rest)) i h ≡ done ++ p ∷ (mid ++ h ∷ rest)
    set_at-behind h =
        ap₂ (λ xs n. set_at xs n h) (sym (further g)) (sym index)
        ∙ set_at-length (done ++ p ∷ mid) g h rest
        ∙ further h
