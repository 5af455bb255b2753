-- ===== src/Cmap/Same.antt =====
-- src/tables/cmap.rs: the two methods `map_glyph`, on a sub-table that is read in place and on its
-- conversion.
use allsorts.Base.{
  ℕ, zero, suc, ◌≤◌, ◌≡◌, refl, sym, ap, ap₂, ◌∙◌, arith, ltb, List, [], ◌∷◌, Option, none, some,
  length, take, drop, replicate, Bool-cases, inl, inr, ltb→lt, drop-drop, false,
}
use allsorts.Base.Int.{ℤ}
use mathlib.Core.Path.{fun_ext}
use allsorts.Binary.Read.Values.{
  Exact, be_value, Exact-value, Exact-bind, Exact->>=, read_unchecked_u8-Exact,
  read_unchecked_u16be-Exact, read_unchecked_u32be-Exact,
}
use allsorts.Binary.Read.Fixed.{signed_value, read_unchecked_i16be-Exact}
use allsorts.Binary.Unchecked.{ReadUnchecked, ReadArray, u8, u16be, i16be, u32be, triple}
use allsorts.Binary.Array.{get_item, to_vec}
use allsorts.Binary.Array.Items.{length-items}
use allsorts.Binary.Array.Laws.{IsArray, elements, to_vec-elements, get_item-elements}
use allsorts.Binary.Array.Find.{find-first}
use allsorts.Binary.Vector.{read_from-Exact}
use allsorts.Context.{at}
use allsorts.Context.Find.{at_lem}
use allsorts.Error.{Outcome, ok, panic, ParseError}
use allsorts.Cmap.{CmapSubtable, Segments, SequentialMapGroup, sequential_map_group}
use allsorts.Cmap.Safety.{IsSubtable, IsSegments}
use allsorts.Cmap.Map.{array_access, map_segments, map_glyph, in_group, glyph_within, glyph_from}
use allsorts.Cmap.Owned.{
  OwnedCmapSubtable, OwnedSegments, vec_access, map_owned, to_owned, segments_to_owned, copy_over,
}

-- Three values of 32 bits.
abbrev three_longs : List ℕ → ℕ × ℕ × ℕ
three_longs bs = (be_value (take 4 bs), be_value (take 4 (drop 4 bs)), be_value (drop 8 bs))

longs-Exact : Exact (triple u32be u32be u32be).read_unchecked 12 three_longs
longs-Exact =
    Exact-value (triple u32be u32be u32be).read_unchecked 12 _ three_longs
      (λ bs _ _.
        λ i. (be_value (take 4 bs), be_value (take 4 (drop 4 bs)), be_value (drop-drop 4 4 bs i)))
      (Exact-bind u32be.read_unchecked _ 4 8 be_value
        (λ a bs. (a, be_value (take 4 bs), be_value (drop 4 bs))) read_unchecked_u32be-Exact
        (λ a.
          Exact->>= u32be.read_unchecked u32be.read_unchecked (λ b c. (a, b, c)) 4 4 be_value
            be_value read_unchecked_u32be-Exact read_unchecked_u32be-Exact))

abbrev pub group_value : List ℕ → SequentialMapGroup
group_value bs =
    let r = three_longs bs in
    record { start_char_code = r.0; end_char_code = r.1; start_glyph_id = r.2 }

pub group-Exact : Exact sequential_map_group.read_unchecked 12 group_value
group-Exact = read_from-Exact _ (triple u32be u32be u32be) three_longs longs-Exact

at-outside : {A : Type 0} (xs : List A) (i : ℕ) → length xs ≤ i → at xs i ≡ panic
at-outside [] i h = refl
at-outside (x ∷ xs) zero h = absurd (omega arith)
at-outside (x ∷ xs) (suc i) h = at-outside xs i (omega arith)

module _ {A : Type 0} (t : ReadUnchecked A) (value : List ℕ → A)
    (exact : Exact t.read_unchecked t.size value) (array : ReadArray)
    (h : IsArray t.size array) where
  abbrev pub items_of : List A
  items_of = elements t value exact array

  outside_panics : (i : ℕ) → ltb i array.length ≡ false → get_item t array i ≡ panic
  unfolding get_item
  outside_panics i e = rw e refl

  -- An access to the array is the access to the vector of its elements, in range or not.
  get_item-item : (i : ℕ) → get_item t array i ≡ at items_of i
  get_item-item i = elim (Bool-cases (ltb i array.length)) [
    | inl lt ↦
        let (a, e, k) = get_item-elements t value exact array i h (ltb→lt i array.length lt) in
        e ∙ sym (at_lem items_of i a k)
    | inr ge ↦ rw (outside_panics i ge) (
        sym (
          at-outside items_of i
            (ground (arith, ge, length-items t.size value array.length array.scope.bytes))))
  ]

  pub get_item-at : get_item t array ≡ at items_of
  get_item-at = fun_ext get_item-item

  pub length-items_of : array.length ≡ length items_of
  length-items_of = sym (length-items t.size value array.length array.scope.bytes)

-- A vector of 256 overwrites all of the 256.
copy_over-length : (xs ys : List ℕ) → length xs ≡ length ys → copy_over xs ys ≡ ys
copy_over-length [] [] h = refl
copy_over-length [] (y ∷ ys) h = absurd (omega arith)
copy_over-length (x ∷ xs) [] h = absurd (omega arith)
copy_over-length (x ∷ xs) (y ∷ ys) h = ap (λ t. y ∷ t) (copy_over-length xs ys (omega arith))

abbrev pub word_items : (array : ReadArray) → IsArray 2 array → List ℕ
word_items array h = items_of u16be be_value read_unchecked_u16be-Exact array h

abbrev pub delta_items : (array : ReadArray) → IsArray 2 array → List ℤ
delta_items array h = items_of i16be (signed_value 16) read_unchecked_i16be-Exact array h

-- The vectors of the segments.
abbrev pub owned_segments : (s : Segments) → IsSegments s → OwnedSegments
owned_segments s h = record {
  end_codes = word_items s.end_codes h.end_codes;
  start_codes = word_items s.start_codes h.start_codes.0;
  id_deltas = delta_items s.id_deltas h.id_deltas.0;
  id_range_offsets = word_items s.id_range_offsets h.id_range_offsets.0;
  glyph_id_array = word_items s.glyph_id_array h.glyph_id_array;
}

word_at : (array : ReadArray) (h : IsArray 2 array) → get_item u16be array ≡ at (word_items array h)
word_at array h = get_item-at u16be be_value read_unchecked_u16be-Exact array h

pub word_length :
    (array : ReadArray) (h : IsArray 2 array) → array.length ≡ length (word_items array h)
word_length array h = length-items_of u16be be_value read_unchecked_u16be-Exact array h

access_lem : (s : Segments) (h : IsSegments s) → array_access s ≡ vec_access (owned_segments s h)
access_lem s h = λ i. record {
  offsets = word_length s.id_range_offsets h.id_range_offsets.0 i;
  end_code = word_at s.end_codes h.end_codes i;
  start_code = word_at s.start_codes h.start_codes.0 i;
  id_delta =
      get_item-at i16be (signed_value 16) read_unchecked_i16be-Exact s.id_deltas h.id_deltas.0 i;
  id_range_offset = word_at s.id_range_offsets h.id_range_offsets.0 i;
  glyph_id = word_at s.glyph_id_array h.glyph_id_array i;
}

pub word_vec :
    (array : ReadArray) (h : IsArray 2 array) → to_vec u16be array ≡ ok (word_items array h)
word_vec array h = to_vec-elements u16be be_value read_unchecked_u16be-Exact array h

segments_lem : (s : Segments) (h : IsSegments s) → segments_to_owned s ≡ ok (owned_segments s h)
unfolding segments_to_owned
segments_lem s h =
    rw
      (
        word_vec s.end_codes h.end_codes,
        word_vec s.start_codes h.start_codes.0,
        to_vec-elements i16be (signed_value 16) read_unchecked_i16be-Exact s.id_deltas
            h.id_deltas.0,
        word_vec s.id_range_offsets h.id_range_offsets.0,
        word_vec s.glyph_id_array h.glyph_id_array,
      )
      refl

-- The vectors of a sub-table; format 2 has none.
abbrev pub owned_of : (t : CmapSubtable) → IsSubtable t → Option OwnedCmapSubtable
owned_of (CmapSubtable.format0 language glyphs) h =
    some
      (OwnedCmapSubtable.format0 language (items_of u8 be_value read_unchecked_u8-Exact glyphs h.0))
owned_of (CmapSubtable.format2 language keys headers scope) h = none
owned_of (CmapSubtable.format4 language s) h =
    some (OwnedCmapSubtable.format4 language (owned_segments s h))
owned_of (CmapSubtable.format6 language first_code glyphs) h =
    some (OwnedCmapSubtable.format6 language first_code (word_items glyphs h))
owned_of (CmapSubtable.format10 language start_char_code glyphs) h =
    some (OwnedCmapSubtable.format10 language start_char_code (word_items glyphs h))
owned_of (CmapSubtable.format12 language groups) h = some (
    OwnedCmapSubtable.format12 language
      (items_of sequential_map_group group_value group-Exact groups h))

pub to_owned-owned_of : (t : CmapSubtable) (h : IsSubtable t) → to_owned t ≡ ok (owned_of t h)
unfolding to_owned
to_owned-owned_of (CmapSubtable.format0 language glyphs) (h, n) =
    let xs = items_of u8 be_value read_unchecked_u8-Exact glyphs h in
    let e = length-items_of u8 be_value read_unchecked_u8-Exact glyphs h in
    rw
      (
        to_vec-elements u8 be_value read_unchecked_u8-Exact glyphs h,
        copy_over-length (replicate 256 0) xs (sym n ∙ e),
      )
      refl
to_owned-owned_of (CmapSubtable.format2 language keys headers scope) h = refl
to_owned-owned_of (CmapSubtable.format4 language s) h = rw (segments_lem s h) refl
to_owned-owned_of (CmapSubtable.format6 language first_code glyphs) h = rw (word_vec glyphs h) refl
to_owned-owned_of (CmapSubtable.format10 language start glyphs) h = rw (word_vec glyphs h) refl
to_owned-owned_of (CmapSubtable.format12 language groups) h =
    rw (to_vec-elements sequential_map_group group_value group-Exact groups h) refl

-- The mapping of a conversion, where there is one.
abbrev pub MapConverted : Option OwnedCmapSubtable → ℕ → Outcome ParseError (Option ℕ) → Type 0
MapConverted none ch o = Unit {0}
MapConverted (some t) ch o = map_owned t ch ≡ o

-- The access to the glyphs of an array and of its vector.
from_lem :
    (glyphs : ReadArray) (h : IsArray 2 glyphs) (first_code ch : ℕ)
    → glyph_from (at (word_items glyphs h)) (length (word_items glyphs h)) first_code ch
      ≡ glyph_from (get_item u16be glyphs) glyphs.length first_code ch
from_lem glyphs h first_code ch =
    ap₂ (λ g n. glyph_from g n first_code ch) (sym (word_at glyphs h)) (sym (word_length glyphs h))

pub map_owned_of :
    (t : CmapSubtable) (h : IsSubtable t) (ch : ℕ) → MapConverted (owned_of t h) ch (map_glyph t ch)
unfolding map_owned map_glyph
map_owned_of (CmapSubtable.format0 language glyphs) (h, n) ch =
    ap₂ (λ g k. glyph_within g k ch)
      (sym (get_item-at u8 be_value read_unchecked_u8-Exact glyphs h))
      (sym (length-items_of u8 be_value read_unchecked_u8-Exact glyphs h))
map_owned_of (CmapSubtable.format2 language keys headers scope) h ch = tt
map_owned_of (CmapSubtable.format4 language s) h ch =
    ap₂ (λ a n. map_segments a ch n 0) (sym (access_lem s h))
      (sym (word_length s.end_codes h.end_codes))
map_owned_of (CmapSubtable.format6 language first_code glyphs) h ch =
    from_lem glyphs h first_code ch
map_owned_of (CmapSubtable.format10 language start glyphs) h ch = from_lem glyphs h start ch
map_owned_of (CmapSubtable.format12 language groups) h ch =
    rw (find-first sequential_map_group group_value group-Exact (in_group ch) groups h) refl
