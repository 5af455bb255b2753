-- ===== src/Binary/Array/Items.antt =====
-- What an array of `n` elements of a fixed size holds, and the loops that read it.
use allsorts.Base.{ℕ, zero, suc, ◌+◌, ◌-◌, ◌*◌, ◌≤◌, ◌<◌, ◌≡◌, refl, sym, ap, ◌∙◌, arith}
use allsorts.Base.{List, [], ◌∷◌, length, take, drop}
use allsorts.Base.{length-drop, drop-drop, drop-take, take-take, get_elem?, some}
use allsorts.Binary.Read.{ReadCtxt, IsValid, remaining, advance}
use allsorts.Binary.Read.Remaining.{advance-IsValid, remaining-advance}
use allsorts.Binary.Read.Values.{Exact}
use allsorts.Binary.Unchecked.{ReadUnchecked}
use allsorts.Binary.Array.{next, collect}
use allsorts.Error.{ok}

-- The first `n` elements of `bytes`.
abbrev pub items : {A : Type 0} → ℕ → (List ℕ → A) → ℕ → List ℕ → List A
items size value zero bytes = []
items size value (suc n) bytes = value (take size bytes) ∷ items size value n (drop size bytes)

pub length-items :
    {A : Type 0} (size : ℕ) (value : List ℕ → A) (n : ℕ) (bytes : List ℕ)
    → length (items size value n bytes) ≡ n
length-items size value zero bytes = refl
length-items size value (suc n) bytes = ap suc (length-items size value n (drop size bytes))

-- The element at `i` begins `i` elements further on.
pub get_elem?-items :
    {A : Type 0} (size : ℕ) (value : List ℕ → A) (n i : ℕ) (bytes : List ℕ)
    → i < n
    → get_elem? (items size value n bytes) i ≡ some (value (take size (drop (i * size) bytes)))
get_elem?-items size value zero i bytes h = elim h [ ]
get_elem?-items size value (suc n) zero bytes h = let e : 0 * size ≡ 0 = omega arith in rw e refl
get_elem?-items size value (suc n) (suc i) bytes h =
    let e : suc i * size ≡ size + i * size = omega arith in
    get_elem?-items size value n i (drop size bytes) (omega arith)
    ∙ ap (λ r. some (value (take size r)))
        (drop-drop (i * size) size bytes ∙ ap (λ k. drop k bytes) (sym e))

pub drop-items :
    {A : Type 0} (size : ℕ) (value : List ℕ → A) (n i : ℕ) (bytes : List ℕ)
    → i ≤ n
    → drop i (items size value n bytes) ≡ items size value (n - i) (drop (i * size) bytes)
drop-items size value n zero bytes h =
    let e : 0 * size ≡ 0 = omega arith in let k : n - 0 ≡ n = omega arith in rw (e, k) refl
drop-items size value zero (suc i) bytes h = elim h [ ]
drop-items size value (suc n) (suc i) bytes h =
    let e : size + i * size ≡ suc i * size = omega arith in
    let k : suc n - suc i ≡ n - i = omega arith in
    drop-items size value n i (drop size bytes) (omega arith)
    ∙ rw (drop-drop (i * size) size bytes, e, k) refl

-- No element looks past the bytes of the array.
pub items-take :
    {A : Type 0} (size : ℕ) (value : List ℕ → A) (n : ℕ) (bytes : List ℕ)
    → items size value n (take (n * size) bytes) ≡ items size value n bytes
items-take size value zero bytes = refl
items-take size value (suc n) bytes =
    let e : suc n * size ≡ size + n * size = omega arith in
    rw (e, take-take size (size + n * size) bytes (omega arith), drop-take size (n * size) bytes)
      (ap (λ xs. value (take size bytes) ∷ xs) (items-take size value n (drop size bytes)))

module _ {A : Type 0} (t : ReadUnchecked A) (value : List ℕ → A)
    (exact : Exact t.read_unchecked t.size value) where
  pub collect-items :
      (n : ℕ) (c : ReadCtxt)
      → IsValid c
      → n * t.size ≤ length (remaining c)
      → collect t (suc n) (record { ctxt = c; length = n })
        ≡ ok (items t.size value n (remaining c))
  unfolding collect next
  collect-items zero c v h = refl
  collect-items (suc n) c v h =
      let one : t.size ≤ length (remaining c) = grind arith in
      let v' : IsValid (advance c t.size) = advance-IsValid c t.size v one in
      let e : remaining (advance c t.size) ≡ drop t.size (remaining c) =
        remaining-advance c t.size in
      let more : n * t.size ≤ length (remaining (advance c t.size)) =
        rw e (rw length-drop (grind arith)) in
      ground (arith, exact c v one, collect-items n (advance c t.size) v' more, e)
