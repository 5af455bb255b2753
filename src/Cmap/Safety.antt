-- ===== src/Cmap/Safety.antt =====
-- src/tables/cmap.rs: what reading a sub-table can end in.
use allsorts.Base.{
  ℕ, zero, suc, ◌+◌, ◌-◌, ◌/◌, max, bit_and, drop, [], ◌∷◌, All, All-drop, length-drop, ◌*◌, ◌^◌,
  ◌≤◌, ◌<◌, ◌≡◌, refl, ◌∙◌, arith, ◌==◌, leb, List, length, Bool-cases, inl, inr,
}
use allsorts.Binary.Read.{
  IsByte, ReadCtxt, Reader, IsValid, read_u16be, read_u32be, ◌>>=◌, rest_scope,
}
use allsorts.Binary.Read.Values.{be_value, read_unchecked_u16be-Exact}
use allsorts.Binary.Read.Fixed.{read_u16be-Fixed}
use allsorts.Binary.Read.Safety.{word_bound}
use allsorts.Binary.Read.Safety.{Follows, Fixed-IsSafe}
use allsorts.Binary.Read.Nested.{IsScope, rest_scope-IsScope}
use allsorts.Binary.Read.Gives.{
  Gives, Gives-pure, Gives-fail, Gives->>=, Gives-u16be, Gives-check, Gives-bound, Gives-lift,
}
use allsorts.Binary.Scope.{ReadScope}
use allsorts.Binary.Unchecked.{ReadArray, u8, u16be, i16be}
use allsorts.Binary.Array.{to_vec}
use allsorts.Binary.Array.Laws.{IsArray, to_vec-elements, elements}
use allsorts.Binary.Array.Items.{items, length-items}
use allsorts.Binary.Array.Gives.{IsFilled, Gives-array, Gives-u32be}
use allsorts.Error.{ok, bad_version, Ends}
use allsorts.Cmap.{
  CmapSubtable, Segments, format0, format2, format4, format6, format10, format12,
  sequential_map_group, sub_header, read_subtable, read_format, read_format0, read_format2,
  read_format4, read_format6, read_format10, read_format12, read_segments, read_sub_headers,
  largest_index, max_sub_header_index,
}

pub record IsSegments (s : Segments) : Type 0 where
  pub end_codes : IsArray 2 s.end_codes
  pub start_codes : IsFilled 2 s.end_codes.length s.start_codes
  pub id_deltas : IsFilled 2 s.end_codes.length s.id_deltas
  pub id_range_offsets : IsFilled 2 s.end_codes.length s.id_range_offsets
  pub glyph_id_array : IsArray 2 s.glyph_id_array

-- The arrays of the sub-table lie in the font, those of the segments are of one length, and those of
-- fixed length have it.
abbrev pub IsSubtable : CmapSubtable → Type 0
IsSubtable (format0 language glyphs) = IsFilled 1 256 glyphs
IsSubtable (format2 language keys headers scope) =
    IsFilled 2 256 keys × IsArray 8 headers × IsScope scope
IsSubtable (format4 language s) = IsSegments s
IsSubtable (format6 language first_code glyphs) = IsArray 2 glyphs
IsSubtable (format10 language start_char_code glyphs) = IsArray 2 glyphs
IsSubtable (format12 language groups) = IsArray 12 groups

word :
    (f : ℕ → Reader CmapSubtable)
    → ((x : ℕ) → x < 2 ^ 16 → Gives IsSubtable (f x))
    → Gives IsSubtable (read_u16be >>= f)
word = Gives-u16be IsSubtable

format0-Gives : Gives IsSubtable read_format0
unfolding read_format0
format0-Gives = word _ (λ length _. Gives-check IsSubtable (leb (3 * 2 + 256) length) _ (λ _.
    word _ (λ language _.
      Gives-array IsSubtable u8 256 _ (omega arith)
        (λ array h. Gives-pure IsSubtable (format0 language array) h))))

format6-Gives : Gives IsSubtable read_format6
unfolding read_format6
format6-Gives = word _ (λ _ _. word _ (λ language _. word _ (λ first_code _. word _ (λ n small.
    Gives-array IsSubtable u16be n _ (omega arith)
      (λ array h. Gives-pure IsSubtable (format6 language first_code array) h.0)))))

long :
    (f : ℕ → Reader CmapSubtable)
    → ((x : ℕ) → x < 2 ^ 32 → Gives IsSubtable (f x))
    → Gives IsSubtable (read_u32be >>= f)
long = Gives-u32be IsSubtable

format10-Gives : Gives IsSubtable read_format10
unfolding read_format10
format10-Gives = word _ (λ reserved _. Gives-check IsSubtable (reserved == 0) _ (λ _. long _ (λ _ _.
    long _ (λ language _. long _ (λ start _. long _ (λ n small.
      Gives-array IsSubtable u16be n _ (omega arith)
        (λ array h. Gives-pure IsSubtable (format10 language start array) h.0)))))))

format12-Gives : Gives IsSubtable read_format12
unfolding read_format12
format12-Gives = word _ (λ reserved _. Gives-check IsSubtable (reserved == 0) _ (λ _. long _ (λ _ _.
    long _ (λ language _. long _ (λ n small.
      Gives-array IsSubtable sequential_map_group n _ (omega arith)
        (λ array h. Gives-pure IsSubtable (format12 language array) h.0))))))

IsSegments-Gives :
    (len seg_count : ℕ)
    → len < 2 ^ 16
    → seg_count < 2 ^ 16
    → Gives IsSegments (read_segments len seg_count)
unfolding read_segments
IsSegments-Gives len n small count =
    let left = len - (8 + 4 * n) * 2 in
    Gives-array IsSegments u16be n _ (omega arith) (λ ends h. Gives-u16be IsSegments _ (λ pad _.
      Gives-array IsSegments u16be n _ (omega arith) (λ starts i.
        Gives-array IsSegments i16be n _ (omega arith) (λ deltas j.
          Gives-array IsSegments u16be n _ (omega arith) (λ offsets k.
            Gives-check IsSegments (leb ((8 + 4 * n) * 2) len) _ (λ _.
              Gives-check IsSegments (bit_and left 1 == 0) _ (λ _.
                Gives-array IsSegments u16be (left / 2) _ (omega arith) (λ glyphs l.
                  Gives-pure IsSegments _ (record {
                    end_codes = h.0;
                    start_codes = (i.0, omega (arith, i.1, h.1));
                    id_deltas = (j.0, omega (arith, j.1, h.1));
                    id_range_offsets = (k.0, omega (arith, k.1, h.1));
                    glyph_id_array = l.0;
                  })))))))))

format4-Gives : Gives IsSubtable read_format4
unfolding read_format4
format4-Gives = word _ (λ len small. word _ (λ language _. word _ (λ x2 twice.
    Gives-check IsSubtable (bit_and x2 1 == 0) _ (λ _. word _ (λ _ _. word _ (λ _ _. word _ (λ _ _.
      Gives-bound IsSegments IsSubtable (read_segments len (x2 / 2)) _
        (IsSegments-Gives len (x2 / 2) small (omega arith))
        (λ s h. Gives-pure IsSubtable (format4 language s) h))))))))

-- The keys are words, so the largest index has thirteen bits.
abbrev IsWord : ℕ → Type 0
IsWord x = x < 2 ^ 16

words_bound :
    (n : ℕ) (bytes : List ℕ)
    → All IsByte bytes
    → n * 2 ≤ length bytes
    → All IsWord (items 2 be_value n bytes)
words_bound zero bytes h l = tt
words_bound (suc n) bytes h l = (
  word_bound bytes h (omega arith),
  words_bound n (drop 2 bytes) (All-drop IsByte 2 bytes h) (omega (arith, length-drop 2 bytes)),
)

largest_bound :
    (m : ℕ) (keys : List ℕ) → m < 2 ^ 13 → All IsWord keys → largest_index m keys < 2 ^ 13
largest_bound m [] h k = h
largest_bound m (x ∷ xs) h (k, ks) = largest_bound (max m (x / 8)) xs (omega arith) ks

max_bound :
    (keys : List ℕ)
    → 0 < length keys
    → All IsWord keys
    → (m : ℕ) × (max_sub_header_index keys ≡ ok m) × (m < 2 ^ 13)
max_bound [] h k = elim h [ ]
max_bound (x ∷ xs) h (k, ks) =
    (largest_index (x / 8) xs, refl, largest_bound (x / 8) xs (omega arith) ks)

abbrev AreHeaders : ReadArray × ReadScope → Type 0
AreHeaders (headers, scope) = IsArray 8 headers × IsScope scope

sub_headers-Gives :
    (keys : ReadArray) → IsFilled 2 256 keys → Gives AreHeaders (read_sub_headers keys)
unfolding read_sub_headers
sub_headers-Gives keys h c v =
    let ks = elements u16be be_value read_unchecked_u16be-Exact keys in
    let filled : length ks ≡ 256 = length-items 2 be_value keys.length keys.scope.bytes ∙ h.1 in
    let (m, e, small) =
      max_bound ks (omega (arith, filled))
        (words_bound keys.length keys.scope.bytes h.0.octets h.0.filled) in
    Gives-lift AreHeaders (to_vec u16be keys) _ ks
      (to_vec-elements u16be be_value read_unchecked_u16be-Exact keys h.0)
      (Gives-lift AreHeaders (max_sub_header_index ks) _ m e (
        Gives-array AreHeaders sub_header (m + 1) _ (omega arith) (λ headers i.
          Gives-pure AreHeaders (headers, rest_scope c) (i.0, rest_scope-IsScope c v))))
      c v

format2-Gives : Gives IsSubtable read_format2
unfolding read_format2
format2-Gives = word _ (λ _ _. word _ (λ language _.
    Gives-array IsSubtable u16be 256 _ (omega arith) (λ keys h.
      Gives-bound AreHeaders IsSubtable (read_sub_headers keys) _ (sub_headers-Gives keys h)
        (λ r i. Gives-pure IsSubtable (format2 language keys r.0 r.1) (h, i.0, i.1)))))

format_Gives : (format : ℕ) → Gives IsSubtable (read_format format)
unfolding read_format
format_Gives format = elim (Bool-cases (format == 0)) [
  | inl a ↦ rw a format0-Gives
  | inr a ↦ rw a (elim (Bool-cases (format == 2)) [
    | inl b ↦ rw b format2-Gives
    | inr b ↦ rw b (elim (Bool-cases (format == 4)) [
      | inl d ↦ rw d format4-Gives
      | inr d ↦ rw d (elim (Bool-cases (format == 6)) [
        | inl e ↦ rw e format6-Gives
        | inr e ↦ rw e (elim (Bool-cases (format == 10)) [
          | inl f ↦ rw f format10-Gives
          | inr f ↦ rw f (elim (Bool-cases (format == 12)) [
            | inl g ↦ rw g format12-Gives
            | inr g ↦ rw g (Gives-fail IsSubtable bad_version)
          ])
        ])
      ])
    ])
  ])
]

-- On every valid context `read_subtable` ends in an error or in a sub-table of one of the six
-- formats whose arrays lie in the font, the arrays of its segments of one length, with a valid
-- context in the same scope, no further back; it neither panics nor reads out of bounds.
pub read_subtable-IsSubtable :
    (c : ReadCtxt) → IsValid c → Ends (λ r. Follows c r.1 × IsSubtable r.0) (read_subtable c)
unfolding read_subtable
read_subtable-IsSubtable =
    Gives->>= IsSubtable read_u16be read_format
      (Fixed-IsSafe read_u16be 2 be_value read_u16be-Fixed) format_Gives
