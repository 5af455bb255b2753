-- ===== src/Binary/Array/Laws.antt =====
-- src/binary/read.rs: the elements of an array that is read in place, at the indices below its
-- length, against the bytes of its scope.
use allsorts.Base.{ℕ, zero, suc, ◌+◌, ◌-◌, ◌*◌, ◌^◌, ◌≤◌, ◌<◌, ◌≡◌, refl, sym, ap, ◌∙◌, arith}
use allsorts.Base.{List, some, length, take, drop, All, get_elem?}
use allsorts.Base.{length-drop, length-take, take-take, All-drop, All-take, ltb}
use allsorts.Base.{Bool-cases, inl, inr, false, ltb→lt, drop-drop, drop-eq-nil}
use allsorts.Binary.Scope.{
  window, offset, offset_lem, offset_length, offset_length-window, usize_mul,
}
use allsorts.Binary.Read.{IsByte, IsValid, advance, new_ctxt}
use allsorts.Binary.Read.Remaining.{check_avail_lem}
use allsorts.Binary.Read.Values.{Exact}
use allsorts.Binary.Unchecked.{ReadUnchecked, ReadArray}
use allsorts.Binary.Array.{
  to_vec, iter, get_item, read_item, read_items, read_to_vec, subarray, empty,
}
use allsorts.Binary.Array.Items.{items, get_elem?-items, drop-items, collect-items, length-items}
use allsorts.Error.{ok}

-- The scope of an array holds its elements.
pub record IsArray (size : ℕ) (array : ReadArray) : Type 0 where
  pub filled : array.length * size ≤ length array.scope.bytes
  pub fits : length array.scope.bytes < 2 ^ 63
  pub octets : All IsByte array.scope.bytes

sub_mul : (n i s : ℕ) → i ≤ n → (n - i) * s + i * s ≡ n * s
sub_mul n i s h = let e : n - i + i ≡ n = omega arith in omega (arith, ap (λ (k : ℕ). k * s) e)

leb_of_not : (i n : ℕ) → ltb i n ≡ false → n ≤ i
leb_of_not i n h = ground arith

module _ {A : Type 0} (t : ReadUnchecked A) (value : List ℕ → A)
    (exact : Exact t.read_unchecked t.size value) where
  abbrev pub elements : ReadArray → List A
  elements array = items t.size value array.length array.scope.bytes

  -- For an array whose scope holds its elements, collecting the iterator ends with exactly those
  -- elements in order.
  pub to_vec-elements :
      (array : ReadArray) → IsArray t.size array → to_vec t array ≡ ok (elements array)
  unfolding to_vec
  to_vec-elements array h =
      collect-items t value exact array.length (iter t array).ctxt
        (record { bounded = omega arith; fits = h.fits; octets = h.octets }) h.filled

  -- The scope of one element.
  item_scope :
      (array : ReadArray) (i : ℕ)
      → IsArray t.size array
      → i < array.length
      → offset_length array.scope (usize_mul i t.size) t.size
        ≡ ok (window array.scope (i * t.size) t.size)
  item_scope array i h lt =
      let e : usize_mul i t.size ≡ i * t.size = grind (arith, h.filled, h.fits) in
      rw e (offset_length-window array.scope (i * t.size) t.size (grind (arith, h.filled)))

  item_fits :
      (array : ReadArray) (i : ℕ)
      → IsArray t.size array
      → i < array.length
      → i * t.size + t.size ≤ length array.scope.bytes
  item_fits array i h lt = grind (arith, h.filled)

  item_ctxt-IsValid :
      (array : ReadArray) (i : ℕ)
      → IsArray t.size array
      → i < array.length
      → IsValid (new_ctxt (window array.scope (i * t.size) t.size))
        × (length (take t.size (drop (i * t.size) array.scope.bytes)) ≡ t.size)
  item_ctxt-IsValid array i h lt = (
    record {
      bounded = omega arith;
      fits = omega (
        arith,
        length-take t.size (drop (i * t.size) array.scope.bytes),
        length-drop (i * t.size) array.scope.bytes,
        h.fits,
      );
      octets = All-take IsByte t.size _ (All-drop IsByte (i * t.size) array.scope.bytes h.octets);
    },
    omega (
      arith,
      length-take t.size (drop (i * t.size) array.scope.bytes),
      length-drop (i * t.size) array.scope.bytes,
      item_fits array i h lt,
    ),
  )

  item_read :
      (array : ReadArray) (i : ℕ)
      → IsArray t.size array
      → i < array.length
      → t.read_unchecked (new_ctxt (window array.scope (i * t.size) t.size))
        ≡ ok (
          value (take t.size (drop (i * t.size) array.scope.bytes)),
          advance (new_ctxt (window array.scope (i * t.size) t.size)) t.size,
        )
  item_read array i h lt =
      let (v, n) = item_ctxt-IsValid array i h lt in
      exact (new_ctxt (window array.scope (i * t.size) t.size)) v (omega (arith, n))
      ∙ rw (take-take t.size t.size (drop (i * t.size) array.scope.bytes) (omega arith)) refl

  -- For an array whose scope holds its elements, and an index below its length, `get_item` succeeds
  -- with the element at that index.
  pub get_item-elements :
      (array : ReadArray) (i : ℕ)
      → IsArray t.size array
      → i < array.length
      → (a : A) × (get_item t array i ≡ ok a) × (get_elem? (elements array) i ≡ some a)
  unfolding get_item
  get_item-elements array i h lt = (
    value (take t.size (drop (i * t.size) array.scope.bytes)),
    ground (arith, item_scope array i h lt, item_read array i h lt),
    get_elem?-items t.size value array.length i array.scope.bytes lt,
  )

  -- The checked access agrees with the unchecked one.
  pub read_item-get_item :
      (array : ReadArray) (i : ℕ)
      → IsArray t.size array
      → i < array.length
      → read_item t array i ≡ get_item t array i
  unfolding read_item get_item
  read_item-get_item array i h lt =
      let (v, n) = item_ctxt-IsValid array i h lt in
      ground (
        arith,
        item_scope array i h lt,
        check_avail_lem (new_ctxt (window array.scope (i * t.size) t.size)) t.size v
            (omega (arith, n)),
      )

  read_items-elements :
      (array : ReadArray) (left i : ℕ)
      → IsArray t.size array
      → i + left ≡ array.length
      → read_items t array left i
        ≡ ok (items t.size value left (drop (i * t.size) array.scope.bytes))
  unfolding read_items get_item
  read_items-elements array zero i h e = refl
  read_items-elements array (suc left) i h e =
      let lt : i < array.length = omega arith in
      let k : (i + 1) * t.size ≡ i * t.size + t.size = omega arith in
      ground (
        arith,
        read_item-get_item array i h lt,
        item_scope array i h lt,
        item_read array i h lt,
        read_items-elements array left (i + 1) h (omega arith),
        drop-drop t.size (i * t.size) array.scope.bytes,
        k,
      )

  -- For an array whose scope holds its elements, reading the elements one by one with checks gives
  -- the same result as collecting the iterator.
  read_to_vec-to_vec :
      (array : ReadArray) → IsArray t.size array → read_to_vec t array ≡ to_vec t array
  unfolding read_to_vec
  read_to_vec-to_vec array h =
      let z : 0 * t.size ≡ 0 = omega arith in
      read_items-elements array array.length 0 h (omega arith)
      ∙ rw z (sym (to_vec-elements array h))

  -- For an array whose scope holds its elements, and any index, the subarray from the index on
  -- collects to the elements without the first ones; past the end it is empty.
  subarray-elements :
      (array : ReadArray) (i : ℕ)
      → IsArray t.size array
      → to_vec t (subarray t array i) ≡ ok (drop i (elements array))
  unfolding subarray
  subarray-elements array i h = elim (Bool-cases (ltb i array.length)) [
    | inl lt ↦ rw lt (inside (ltb→lt i array.length lt))
    | inr ge ↦ rw ge (outside (leb_of_not i array.length ge))
  ]
    where
      part : ReadArray
      part = record { scope = offset array.scope (usize_mul i t.size); length = array.length - i }

      inside : i < array.length → to_vec t part ≡ ok (drop i (elements array))
      inside lt =
          let e : usize_mul i t.size ≡ i * t.size = grind (arith, h.filled, h.fits) in
          let k : part.scope.bytes ≡ drop (i * t.size) array.scope.bytes =
            offset_lem array.scope (usize_mul i t.size) ∙ ap (λ o. drop o array.scope.bytes) e in
          let n : (array.length - i) * t.size + i * t.size ≡ array.length * t.size =
            sub_mul array.length i t.size (omega arith) in
          to_vec-elements part (record {
            filled = rw k (omega (arith, length-drop (i * t.size) array.scope.bytes, n, h.filled));
            fits = rw k (omega (arith, length-drop (i * t.size) array.scope.bytes, h.fits));
            octets = rw k (All-drop IsByte (i * t.size) array.scope.bytes h.octets);
          })
          ∙ rw (k, drop-items t.size value array.length i array.scope.bytes (omega arith)) refl

      outside : array.length ≤ i → to_vec t empty ≡ ok (drop i (elements array))
      outside ge =
          to_vec-elements empty (record { filled = omega arith; fits = omega arith; octets = tt })
          ∙ ap ok (
              sym (
                drop-eq-nil i (elements array)
                  (omega (arith, length-items t.size value array.length array.scope.bytes, ge))))
