-- ===== src/Loca/Offsets.antt =====
-- src/tables/loca.rs: reading the bytes that are written for some offsets.
use allsorts.Base.{ℕ, zero, suc, ◌+◌, ◌*◌, ◌^◌, ◌≤◌, ◌<◌, ◌≡◌, refl, sym, ap, ap₂, ◌∙◌}
use allsorts.Base.{List, [], ◌∷◌, ◌++◌, map, some, true, arith, length, drop, All, le→leb}
use allsorts.Base.{
  get_elem?, drop-get_elem?, drop-eq-nil, length-map, length-append, Bool-cases, inl, inr,
}
use allsorts.Binary.Read.{ReadCtxt, IsValid, remaining, advance}
use allsorts.Binary.Read.Remaining.{front_fits}
use allsorts.Binary.Read.Values.{
  be_value, Exact, read_unchecked_u16be-Exact, read_unchecked_u32be-Exact,
}
use allsorts.Binary.Unchecked.{ReadUnchecked, ReadArray, read_array, u16be, u32be}
use allsorts.Binary.Array.Items.{items, items-take, length-items}
use allsorts.Binary.Array.Laws.{IsArray, elements, get_item-elements}
use allsorts.Binary.Vector.{array_at, array_at-IsArray, read_array_lem}
use allsorts.Binary.Write.Count.{concat}
use allsorts.Loca.{IndexToLocFormat, LocaOffsets, LocaTable, offsets_len}
use allsorts.Loca.Read.{read_loca, offset_at, next, collect, all_offsets}
use allsorts.Loca.RoundTrip.{
  all_short, short_bytes, long_bytes, write_offsets-short, write_offsets-long,
}
use allsorts.Binary.Write.{WriteBuffer, buffer_context, new_buffer}
use allsorts.Loca.Write.{write_offsets}
use allsorts.Error.{Outcome, WriteError, ok}

-- An iterator over offsets that are known one by one gives those from its index on.
collect-drop :
    (offsets : LocaOffsets) (ys : List ℕ)
    → offsets_len offsets ≡ length ys
    → ((i : ℕ) → i < length ys → (a : ℕ) × (offset_at offsets i ≡ ok a) × (get_elem? ys i ≡ some a))
    → (left i : ℕ) → i + left ≡ length ys
    → collect (suc left) (record { offsets = offsets; index = i }) ≡ ok (drop i ys)
unfolding collect next
collect-drop offsets ys n at zero i e = ground (arith, drop-eq-nil i ys (omega arith))
collect-drop offsets ys n at (suc left) i e =
    let (a, read, found) = at i (omega arith) in
    ground (
      arith,
      read,
      drop-get_elem? i ys found,
      collect-drop offsets ys n at left (i + 1) (omega arith),
    )

get_elem?-map :
    (f : ℕ → ℕ) (xs : List ℕ) (i : ℕ) {a : ℕ}
    → get_elem? xs i ≡ some a
    → get_elem? (map f xs) i ≡ some (f a)
get_elem?-map f [] i h = cc
get_elem?-map f (x ∷ xs) zero h = cc
get_elem?-map f (x ∷ xs) (suc i) h = get_elem?-map f xs i h

pub all_offsets-long :
    (array : ReadArray)
    → IsArray 4 array
    → all_offsets (record { offsets = LocaOffsets.long array })
      ≡ ok (items 4 be_value array.length array.scope.bytes)
unfolding all_offsets offset_at
all_offsets-long array h =
    collect-drop (LocaOffsets.long array) ys (sym n)
      (λ i lt.
        get_item-elements u32be be_value read_unchecked_u32be-Exact array i h (omega (arith, n)))
      array.length 0 (omega (arith, n))
  where
    ys : List ℕ
    ys = items 4 be_value array.length array.scope.bytes

    n : length ys ≡ array.length
    n = length-items 4 be_value array.length array.scope.bytes

pub all_offsets-short :
    (array : ReadArray)
    → IsArray 2 array
    → all_offsets (record { offsets = LocaOffsets.short array })
      ≡ ok (map (λ x. x * 2) (items 2 be_value array.length array.scope.bytes))
unfolding all_offsets offset_at
all_offsets-short array h =
    collect-drop (LocaOffsets.short array) (map (λ x. x * 2) ys) (sym n)
      (λ i lt.
        let (a, read, found) =
          get_item-elements u16be be_value read_unchecked_u16be-Exact array i h
            (omega (arith, n)) in
        (a * 2, rw read refl, get_elem?-map (λ x. x * 2) ys i found))
      array.length 0 (omega (arith, n))
  where
    ys : List ℕ
    ys = items 2 be_value array.length array.scope.bytes

    n : length (map (λ x. x * 2) ys) ≡ array.length
    n = length-map ys (λ x. x * 2) ∙ length-items 2 be_value array.length array.scope.bytes

-- The elements of the bytes that were written.
items-long_bytes :
    (os rest : List ℕ)
    → All (λ o. o < 2 ^ 32) os
    → items 4 be_value (length os) (concat long_bytes os ++ rest) ≡ os
items-long_bytes [] rest h = refl
items-long_bytes (o ∷ os) rest h =
    let e : be_value (long_bytes o) ≡ o = omega (arith, h.0) in
    ap₂ (λ x xs. x ∷ xs) e (items-long_bytes os rest h.1)

items-short_bytes :
    (os rest : List ℕ)
    → all_short os ≡ true
    → map (λ x. x * 2) (items 2 be_value (length os) (concat short_bytes os ++ rest)) ≡ os
items-short_bytes [] rest h = refl
items-short_bytes (o ∷ os) rest h =
    let e : be_value (short_bytes o) * 2 ≡ o = ground arith in
    ap₂ (λ x xs. x ∷ xs) e (items-short_bytes os rest (ground arith))

length-concat :
    (f : ℕ → List ℕ) (k : ℕ) (os : List ℕ)
    → ((o : ℕ) → length (f o) ≡ k)
    → length (concat f os) ≡ length os * k
length-concat f k [] h = omega arith
length-concat f k (o ∷ os) h =
    omega (arith, length-append (f o) (concat f os), h o, length-concat f k os h)

-- A vector that stands at the front of what remains is read in place.
front-IsArray :
    {A : Type 0} (t : ReadUnchecked A) (value : List ℕ → A)
    (exact : Exact t.read_unchecked t.size value) (n : ℕ) (bs : List ℕ) (c : ReadCtxt)
    (rest : List ℕ)
    → length bs ≡ n * t.size
    → n * t.size < 2 ^ 64
    → IsValid c
    → remaining c ≡ bs ++ rest
    → (read_array t n c ≡ ok (array_at t c n, advance c (length bs)))
      × IsArray t.size (array_at t c n)
      × (elements t value exact (array_at t c n) ≡ items t.size value n (bs ++ rest))
front-IsArray t value exact n bs c rest len small v e =
    let fits : n * t.size ≤ length (remaining c) = omega (arith, len, front_fits c bs rest e) in
    (
      read_array_lem t n c small v ∙ rw (le→leb (n * t.size) (length (remaining c)) fits, len) refl,
      array_at-IsArray t c n v fits,
      items-take t.size value n (remaining c) ∙ ap (items t.size value n) e,
    )

read_long :
    (num_glyphs : ℕ) (os : List ℕ) (c : ReadCtxt) (rest : List ℕ)
    → length os ≡ num_glyphs + 1
    → num_glyphs < 2 ^ 16
    → All (λ o. o < 2 ^ 32) os
    → IsValid c
    → remaining c ≡ concat long_bytes os ++ rest
    → (table : LocaTable) × (read_loca num_glyphs IndexToLocFormat.long c
        ≡ ok (table, advance c (length (concat long_bytes os))))
      × (all_offsets table ≡ ok os)
unfolding read_loca
read_long num_glyphs os c rest n small h v e =
    let len : length (concat long_bytes os) ≡ (num_glyphs + 1) * 4 =
      omega (arith, length-concat long_bytes 4 os (λ o. refl), n) in
    let (read, arr, els) =
      front-IsArray u32be be_value read_unchecked_u32be-Exact (num_glyphs + 1)
        (concat long_bytes os) c rest len (omega arith) v e in
    let array : ReadArray = array_at u32be c (num_glyphs + 1) in
    (
      record { offsets = LocaOffsets.long array },
      rw read refl,
      all_offsets-long array arr
          ∙ ap ok (
              els
              ∙ ap (λ k. items 4 be_value k (concat long_bytes os ++ rest)) (sym n)
              ∙ items-long_bytes os rest h),
    )

read_short :
    (num_glyphs : ℕ) (os : List ℕ) (c : ReadCtxt) (rest : List ℕ)
    → length os ≡ num_glyphs + 1
    → num_glyphs < 2 ^ 16
    → all_short os ≡ true
    → IsValid c
    → remaining c ≡ concat short_bytes os ++ rest
    → (table : LocaTable) × (read_loca num_glyphs IndexToLocFormat.short c
        ≡ ok (table, advance c (length (concat short_bytes os))))
      × (all_offsets table ≡ ok os)
unfolding read_loca
read_short num_glyphs os c rest n small h v e =
    let len : length (concat short_bytes os) ≡ (num_glyphs + 1) * 2 =
      omega (arith, length-concat short_bytes 2 os (λ o. refl), n) in
    let (read, arr, els) =
      front-IsArray u16be be_value read_unchecked_u16be-Exact (num_glyphs + 1)
        (concat short_bytes os) c rest len (omega arith) v e in
    let array : ReadArray = array_at u16be c (num_glyphs + 1) in
    (
      record { offsets = LocaOffsets.short array },
      rw read refl,
      all_offsets-short array arr
          ∙ ap ok (
              ap (map (λ x. x * 2))
                (els ∙ ap (λ k. items 2 be_value k (concat short_bytes os ++ rest)) (sym n))
              ∙ items-short_bytes os rest h),
    )

written_bytes :
    {w v : WriteBuffer} → ◌≡◌ {A = Outcome WriteError WriteBuffer} (ok w) (ok v) → w.bytes ≡ v.bytes
written_bytes e = cc

-- When `write_offsets` has written a list of `num_glyphs + 1` offsets of 32 bits, with `num_glyphs`
-- below 2 ^ 16, in either format, `read_loca` on a valid context that begins with those bytes gives
-- a table, stops behind them, and the iterator over the table gives the offsets again.
pub read_loca-write_offsets :
    (format : IndexToLocFormat) (num_glyphs : ℕ) (os : List ℕ) (w : WriteBuffer) (c : ReadCtxt)
    (rest : List ℕ)
    → write_offsets buffer_context os format new_buffer ≡ ok w
    → length os ≡ num_glyphs + 1
    → num_glyphs < 2 ^ 16
    → All (λ o. o < 2 ^ 32) os
    → IsValid c
    → remaining c ≡ w.bytes ++ rest
    → (table : LocaTable) × (read_loca num_glyphs format c ≡ ok (table, advance c (length w.bytes)))
      × (all_offsets table ≡ ok os)
read_loca-write_offsets IndexToLocFormat.long num_glyphs os w c rest e n small h v r =
    let k : w.bytes ≡ concat long_bytes os =
      written_bytes (sym e ∙ write_offsets-long os new_buffer) in
    rw k (read_long num_glyphs os c rest n small h v (rw k at r))
read_loca-write_offsets IndexToLocFormat.short num_glyphs os w c rest e n small h v r =
    elim (Bool-cases (all_short os)) [
      | inl s ↦
          let k : w.bytes ≡ concat short_bytes os =
            written_bytes (sym e ∙ write_offsets-short os new_buffer ∙ rw s refl) in
          rw k (read_short num_glyphs os c rest n small s v (rw k at r))
      | inr s ↦ cc (e, write_offsets-short os new_buffer, s)
    ]
