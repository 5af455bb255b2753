-- ===== src/Cmap/Inverse.antt =====
-- src/tables/cmap.rs: `mappings` against `map_glyph` in the formats that store an array of glyphs.
use allsorts.Base.{
  ℕ, suc, ◌+◌, ◌-◌, ◌^◌, ◌≤◌, ◌<◌, ◌≡◌, refl, sym, ap, ◌∙◌, arith, ◌==◌, ==_iff, if◌then◌else◌,
  Bool, true, false, List, [], ◌∷◌, ◌++◌, Option, none, some, length, get_elem?, Bool-cases,
  Option-cases, inl, inr, le→leb, lt→ltb,
}
use allsorts.Binary.Read.Values.{be_value, read_unchecked_u8-Exact}
use allsorts.Binary.Unchecked.{u8}
use allsorts.Binary.Array.Laws.{to_vec-elements}
use allsorts.Context.{at}
use allsorts.Error.{Outcome, ok, ParseError}
use allsorts.Cmap.{CmapSubtable}
use allsorts.Cmap.Map.{map_glyph, glyph_from, glyph_within, u32_add}
use allsorts.Cmap.Mappings.{CharMap, get_char, or_insert, map_array, mappings}
use allsorts.Cmap.Owned.{map_owned}
use allsorts.Cmap.Same.{items_of, length-items_of, word_items, word_vec, word_length, map_owned_of}
use allsorts.Cmap.Safety.{IsSubtable}

abbrev or_first : Option ℕ → Option ℕ → Option ℕ
or_first (some c) o = some c
or_first none o = o

get_char-append :
    (gid g ch : ℕ) (es : CharMap)
    → get_char gid (es ++ (g, ch) ∷ [])
      ≡ or_first (get_char gid es) (if g == gid then some ch else none)
get_char-append gid g ch [] = refl
get_char-append gid g ch ((k, c) ∷ es) = ground (arith, get_char-append gid g ch es)

clash :
    (gid g : ℕ) (es : CharMap) (c : ℕ)
    → get_char g es ≡ some c
    → get_char gid es ≡ none
    → g ≡ gid
    → ⊥
clash gid g es c e f k = absurd (cc)

get_char-or_insert :
    (gid g ch : ℕ) (es : CharMap)
    → get_char gid (or_insert g ch es)
      ≡ or_first (get_char gid es) (if g == gid then some ch else none)
get_char-or_insert gid g ch es = elim (Option-cases (get_char g es)) [
  | inl e ↦ rw (or_insert, e) (get_char-append gid g ch es)
  | inr (c, e) ↦
      rw (or_insert, e)
        (elim (Option-cases (get_char gid es)) [
          | inl f ↦ rw f (elim (Bool-cases (g == gid)) [
            | inl k ↦ absurd (clash gid g es c e f ((==_iff g gid).0 k))
            | inr k ↦ rw k refl
          ])
          | inr (d, f) ↦ rw f refl
        ])
]

-- The first place of a glyph in an array, counted from `ch` on.
abbrev pub first_char : ℕ → ℕ → List ℕ → Option ℕ
first_char gid ch [] = none
first_char gid ch (g ∷ gs) = if g == gid then some ch else first_char gid (ch + 1) gs

or_first_assoc :
    (o : Option ℕ) (b : Bool) (ch : ℕ) (p : Option ℕ)
    → or_first (or_first o (if b then some ch else none)) p ≡ or_first o (if b then some ch else p)
or_first_assoc none true ch p = refl
or_first_assoc none false ch p = refl
or_first_assoc (some c) b ch p = refl

map_array_lem :
    (gid : ℕ) (gids : List ℕ) (ch : ℕ) (es : CharMap)
    → ch + length gids < 2 ^ 32
    → get_char gid (map_array gids ch es) ≡ or_first (get_char gid es) (first_char gid ch gids)
unfolding map_array
map_array_lem gid [] ch es h = or_nothing (get_char gid es)
  where
    or_nothing : (o : Option ℕ) → o ≡ or_first o none
    or_nothing none = refl
    or_nothing (some c) = refl
map_array_lem gid (g ∷ gs) ch es h =
    let e : u32_add ch 1 ≡ ch + 1 = omega arith in
    rw e (
      map_array_lem gid gs (ch + 1) (or_insert g ch es) (omega arith)
      ∙ ap (λ o. or_first o (first_char gid (ch + 1) gs)) (get_char-or_insert gid g ch es)
      ∙ or_first_assoc (get_char gid es) (g == gid) ch (first_char gid (ch + 1) gs))

first_char_place :
    (gid ch : ℕ) (gids : List ℕ) (c : ℕ)
    → first_char gid ch gids ≡ some c
    → (ch ≤ c) × (c < ch + length gids) × (get_elem? gids (c - ch) ≡ some gid)
first_char_place gid ch [] c e = absurd (cc)
first_char_place gid ch (g ∷ gs) c e = elim (Bool-cases (g == gid)) [
  | inl k ↦
      let same : ch ≡ c = ground (arith, e, k) in
      let zero_off : c - ch ≡ 0 = omega arith in
      (omega arith, omega arith, rw zero_off (ap some ((==_iff g gid).0 k)))
  | inr k ↦
      let more : first_char gid (ch + 1) gs ≡ some c = ground (arith, e, k) in
      let (lo, hi, at_c) = first_char_place gid (ch + 1) gs c more in
      let step : c - ch ≡ suc (c - (ch + 1)) = omega arith in
      (omega arith, omega arith, rw step at_c)
]

-- The sub-tables that store an array of glyphs, for characters of 32 bits.
abbrev pub IsArrayTable : CmapSubtable → Type 0
IsArrayTable (CmapSubtable.format0 language glyphs) = Unit {0}
IsArrayTable (CmapSubtable.format6 language first_code glyphs) = first_code + glyphs.length < 2 ^ 32
IsArrayTable (CmapSubtable.format10 language start glyphs) = start + glyphs.length < 2 ^ 32
IsArrayTable (CmapSubtable.format2 language keys headers scope) = ⊥
IsArrayTable (CmapSubtable.format4 language s) = ⊥
IsArrayTable (CmapSubtable.format12 language groups) = ⊥

-- The character of a glyph, where there is one, is mapped to the glyph.
abbrev pub MapsBack : (ℕ → Outcome ParseError (Option ℕ)) → ℕ → Option ℕ → Type 0
MapsBack glyph gid none = Unit {0}
MapsBack glyph gid (some ch) = glyph ch ≡ ok (some gid)

glyph_at :
    (gids : List ℕ) (start gid ch : ℕ)
    → start + length gids < 2 ^ 32
    → get_char gid (map_array gids start []) ≡ some ch
    → glyph_from (at gids) (length gids) start ch ≡ ok (some gid)
glyph_at gids start gid ch h e =
    let (lo, hi, there) =
      first_char_place gid start gids ch (sym (map_array_lem gid gids start [] h) ∙ e) in
    rw (le→leb start ch lo, lt→ltb (ch - start) (length gids) (omega arith), at, there) refl

words_inverse :
    (t : CmapSubtable) (gid : ℕ) (gids : List ℕ) (start : ℕ)
    → start + length gids < 2 ^ 32
    → ((ch : ℕ) → map_glyph t ch ≡ glyph_from (at gids) (length gids) start ch)
    → mappings t ≡ ok (map_array gids start [])
    → (m : CharMap) × (mappings t ≡ ok m) × MapsBack (map_glyph t) gid (get_char gid m)
words_inverse t gid gids start small same e = (
  map_array gids start [],
  e,
  elim (Option-cases (get_char gid (map_array gids start []))) [
    | inl k ↦ rw k tt
    | inr (ch, k) ↦ rw k (same ch ∙ glyph_at gids start gid ch small k)
  ],
)

within_from :
    (gids : List ℕ) (ch : ℕ)
    → glyph_within (at gids) (length gids) ch ≡ glyph_from (at gids) (length gids) 0 ch
within_from gids ch = let e : ch - 0 ≡ ch = omega arith in rw (le→leb 0 ch (omega arith), e) refl

-- For every sub-table of format 0, 6 or 10 whose array lies in the font and whose characters have
-- 32 bits, and every glyph, `mappings` ends in a map, and where the map has a character for the
-- glyph, `map_glyph` on the same sub-table gives the glyph for the character.
pub map_glyph-mappings :
    (t : CmapSubtable) (gid : ℕ)
    → IsSubtable t
    → IsArrayTable t
    → (m : CharMap) × (mappings t ≡ ok m) × MapsBack (map_glyph t) gid (get_char gid m)
unfolding mappings map_owned
map_glyph-mappings (CmapSubtable.format0 language glyphs) gid h _ =
    let gids = items_of u8 be_value read_unchecked_u8-Exact glyphs h.0 in
    let n = length-items_of u8 be_value read_unchecked_u8-Exact glyphs h.0 in
    words_inverse (CmapSubtable.format0 language glyphs) gid gids 0 (omega (arith, n, h.1))
      (λ ch. sym (map_owned_of (CmapSubtable.format0 language glyphs) h ch) ∙ within_from gids ch)
      (rw (to_vec-elements u8 be_value read_unchecked_u8-Exact glyphs h.0) refl)
map_glyph-mappings (CmapSubtable.format6 language first_code glyphs) gid h small =
    words_inverse (CmapSubtable.format6 language first_code glyphs) gid (word_items glyphs h)
      first_code (omega (arith, word_length glyphs h))
      (λ ch. sym (map_owned_of (CmapSubtable.format6 language first_code glyphs) h ch))
      (rw (word_vec glyphs h) refl)
map_glyph-mappings (CmapSubtable.format10 language start glyphs) gid h small =
    words_inverse (CmapSubtable.format10 language start glyphs) gid (word_items glyphs h) start
      (omega (arith, word_length glyphs h))
      (λ ch. sym (map_owned_of (CmapSubtable.format10 language start glyphs) h ch))
      (rw (word_vec glyphs h) refl)
map_glyph-mappings (CmapSubtable.format2 language keys headers scope) gid h small = absurd small
map_glyph-mappings (CmapSubtable.format4 language s) gid h small = absurd small
map_glyph-mappings (CmapSubtable.format12 language groups) gid h small = absurd small
