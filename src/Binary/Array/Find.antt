-- ===== src/Binary/Array/Find.antt =====
-- src/binary/read.rs: a search through the iterator of an array, `Iterator::find` and a loop that
-- returns at the first item that passes a test.
use allsorts.Base.{
  ℕ, zero, suc, ◌*◌, ◌≤◌, ◌≡◌, refl, arith, Bool, true, false, List, [], ◌∷◌, Option, none, some,
  if◌then◌else◌, length, drop, length-drop,
}
use allsorts.Binary.Read.{ReadCtxt, IsValid, remaining, advance}
use allsorts.Binary.Read.Remaining.{advance-IsValid, remaining-advance}
use allsorts.Binary.Read.Values.{Exact}
use allsorts.Binary.Unchecked.{ReadUnchecked, ReadArray}
use allsorts.Binary.Array.{ReadArrayIter, next, iter}
use allsorts.Binary.Array.Items.{items}
use allsorts.Binary.Array.Laws.{IsArray, elements}
use allsorts.Error.{Outcome, ok, panic, ParseError, ◌>>=◌}

module _ {A : Type 0} (t : ReadUnchecked A) (test : A → Bool) where
  -- Each round but the last takes an item.
  unfoldable pub find_loop : ℕ → ReadArrayIter → Outcome ParseError (Option A)
  find_loop zero it = panic
  find_loop (suc fuel) it = next t it >>= λ r. elim r.0 [
    | none ↦ ok none
    | some a ↦ elim (test a) [ true ↦ ok (some a) | false ↦ find_loop fuel r.1 ]
  ]

  unfoldable pub find : ReadArray → Outcome ParseError (Option A)
  unfolding find_loop next
  find array = find_loop (suc array.length) (iter t array)

-- The first element of a list that passes the test.
abbrev pub first : {A : Type 0} → (A → Bool) → List A → Option A
first test [] = none
first test (x ∷ xs) = if test x then some x else first test xs

module _ {A : Type 0} (t : ReadUnchecked A) (value : List ℕ → A)
    (exact : Exact t.read_unchecked t.size value) (test : A → Bool) where
  find_loop-items :
      (n : ℕ) (c : ReadCtxt)
      → IsValid c
      → n * t.size ≤ length (remaining c)
      → find_loop t test (suc n) (record { ctxt = c; length = n })
        ≡ ok (first test (items t.size value n (remaining c)))
  unfolding find_loop next
  find_loop-items zero c v h = refl
  find_loop-items (suc n) c v h =
      let one : t.size ≤ length (remaining c) = grind arith in
      let v' : IsValid (advance c t.size) = advance-IsValid c t.size v one in
      let e : remaining (advance c t.size) ≡ drop t.size (remaining c) =
        remaining-advance c t.size in
      let more : n * t.size ≤ length (remaining (advance c t.size)) =
        rw e (rw length-drop (grind arith)) in
      ground (arith, exact c v one, find_loop-items n (advance c t.size) v' more, e)

  pub find-first :
      (array : ReadArray)
      → IsArray t.size array
      → find t test array ≡ ok (first test (elements t value exact array))
  unfolding find
  find-first array h =
      find_loop-items array.length (iter t array).ctxt
        (record { bounded = omega arith; fits = h.fits; octets = h.octets }) h.filled
