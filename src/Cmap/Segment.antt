-- ===== src/Cmap/Segment.antt =====
-- src/tables/cmap.rs: what format 4 maps a character to, told segment by segment.
use allsorts.Base.{
  ℕ, zero, suc, ◌+◌, ◌-◌, ◌*◌, ◌/◌, ◌%◌, ◌^◌, ◌≤◌, ◌<◌, ◌≡◌, refl, ap, ◌∙◌, arith, ◌==◌, ◌&&◌, leb,
  if◌then◌else◌, Bool, List, [], ◌∷◌, map, Option, none, some, length, All, get_elem?, drop,
  Bool-cases, inl, inr, length-map, Option-cases, subst,
}
use allsorts.Base.Bits.{bit_and-one}
use allsorts.Base.Int.{ℤ, pos, negsuc}
use allsorts.Context.{at}
use allsorts.Error.{Outcome, ok, err, ParseError, bad_index, ◌>>=◌}
use allsorts.Gsub.Single.{IsDelta, shifted}
use allsorts.Cmap.Map.{Access, add_id_delta, offset_to_index, segment_glyph, map_segments}
use allsorts.Cmap.Owned.{OwnedCmapSubtable, OwnedSegments, vec_access, map_owned}

pub record Segment : Type 0 where
  pub end_code : ℕ
  pub start_code : ℕ
  pub id_delta : ℤ
  pub id_range_offset : ℕ

-- The numbers of a segment have 16 bits.
pub record IsSegment (s : Segment) : Type 0 where
  pub end_fits : s.end_code < 2 ^ 16
  pub start_fits : s.start_code < 2 ^ 16
  pub delta_fits : IsDelta s.id_delta
  pub offset_fits : s.id_range_offset < 2 ^ 16

-- The vectors of a list of segments.
abbrev pub columns : List Segment → List ℕ → OwnedSegments
columns ss glyphs = record {
  end_codes = map (λ s. s.end_code) ss;
  start_codes = map (λ s. s.start_code) ss;
  id_deltas = map (λ s. s.id_delta) ss;
  id_range_offsets = map (λ s. s.id_range_offset) ss;
  glyph_id_array = glyphs;
}

module _ (glyphs : List ℕ) (count ch : ℕ) where
  -- The place in the glyph array that the offset of segment `i` points at: the offset counts bytes
  -- from its own place among the `count` offsets, which the glyph array follows.
  abbrev pub place : ℕ → Segment → ℕ
  place i s = s.id_range_offset / 2 + i + (ch - s.start_code)

  -- The glyph that segment `i` gives a character in it.
  abbrev pub glyph_of : ℕ → Segment → Outcome ParseError ℕ
  glyph_of i s =
      if s.id_range_offset == 0
      then ok (shifted ch s.id_delta)
      else if (s.id_range_offset % 2 == 0) && leb count (place i s)
      then (at glyphs (place i s - count) >>= λ glyph. ok (shifted glyph s.id_delta))
      else err bad_index

  abbrev pub holds : Segment → Bool
  holds s = leb s.start_code ch && leb ch s.end_code

  -- The first segment that holds the character decides.
  abbrev pub mapped : ℕ → List Segment → Outcome ParseError (Option ℕ)
  mapped i [] = ok none
  mapped i (s ∷ ss) =
      let rest = mapped (i + 1) ss in
      if holds s then (glyph_of i s >>= λ glyph. ok (some glyph)) else rest

add_id_delta_lem : (g : ℕ) (d : ℤ) → g < 2 ^ 16 → IsDelta d → add_id_delta 32 g d ≡ shifted g d
add_id_delta_lem g (pos n) h k = omega arith
add_id_delta_lem g (negsuc n) h k = omega arith

offset_to_index_lem :
    (i o d n : ℕ)
    → i < 2 ^ 16
    → o < 2 ^ 16
    → d < 2 ^ 16
    → n < 2 ^ 16
    → offset_to_index i o d n
      ≡ (if (o % 2 == 0) && leb n (o / 2 + i + d) then ok (o / 2 + i + d - n) else err bad_index)
unfolding offset_to_index
offset_to_index_lem i o d n hi ho hd hn = ground (arith, bit_and-one ((o + i * 2) + d * 2))

at-map :
    {A B : Type 0} (f : A → B) (xs : List A) (i : ℕ) (x : A) (r : List A)
    → drop i xs ≡ x ∷ r
    → at (map f xs) i ≡ ok (f x)
at-map f [] zero x r e = cc
at-map f [] (suc i) x r e = cc
at-map f (y ∷ xs) zero x r e = cc
at-map f (y ∷ xs) (suc i) x r e = at-map f xs i x r e

drop_tail :
    {A : Type 0} (xs : List A) (i : ℕ) (x : A) (r : List A)
    → drop i xs ≡ x ∷ r
    → drop (i + 1) xs ≡ r
drop_tail [] zero x r e = cc
drop_tail [] (suc i) x r e = cc
drop_tail (y ∷ xs) zero x r e = cc
drop_tail (y ∷ xs) (suc i) x r e =
    let k : suc i + 1 ≡ suc (i + 1) = omega arith in rw k (drop_tail xs i x r e)

get_elem?-All :
    {A : Type 0} (P : A → Type 0) (xs : List A) (i : ℕ) (x : A)
    → All P xs
    → get_elem? xs i ≡ some x
    → P x
get_elem?-All P [] i x h e = absurd (cc)
get_elem?-All P (y ∷ xs) zero x (h, hs) e = subst P (cc) h
get_elem?-All P (y ∷ xs) (suc i) x (h, hs) e = get_elem?-All P xs i x hs e

abbrev IsWord : ℕ → Type 0
IsWord g = g < 2 ^ 16

at-shifted :
    (glyphs : List ℕ) (i : ℕ) (d : ℤ)
    → All IsWord glyphs
    → IsDelta d
    → (at glyphs i >>= λ g. ok (add_id_delta 32 g d)) ≡ (at glyphs i >>= λ g. ok (shifted g d))
at-shifted glyphs i d h k = elim (Option-cases (get_elem? glyphs i)) [
  | inl e ↦ rw (at, e) refl
  | inr (g, e) ↦ rw (at, e) (ap ok (add_id_delta_lem g d (get_elem?-All IsWord glyphs i g h e) k))
]

module _ (ss : List Segment) (glyphs : List ℕ) (ch : ℕ) (words : All IsWord glyphs)
    (few : length ss < 2 ^ 16) where
  abbrev access : Access
  access = vec_access (columns ss glyphs)

  count_lem : access.offsets ≡ length ss
  count_lem = length-map ss (λ s. s.id_range_offset)

  segment_glyph_lem :
      (i : ℕ) (s : Segment) (r : List Segment)
      → drop i ss ≡ s ∷ r
      → i < length ss
      → IsSegment s
      → ch ≤ s.end_code
      → segment_glyph access ch i s.start_code ≡ glyph_of glyphs (length ss) ch i s
  unfolding segment_glyph
  segment_glyph_lem i s r e lt h within =
      rw
        (at-map (λ s. s.id_delta) ss i s r e, at-map (λ s. s.id_range_offset) ss i s r e, count_lem)
        (elim (Bool-cases (s.id_range_offset == 0)) [
          | inl z ↦
              rw z (ap ok (add_id_delta_lem ch s.id_delta (omega (arith, h.end_fits)) h.delta_fits))
          | inr z ↦
              rw
                (
                  z,
                  offset_to_index_lem i s.id_range_offset (ch - s.start_code) (length ss)
                      (omega arith) h.offset_fits (omega (arith, h.end_fits)) few,
                )
                (elim (Bool-cases (
                  (s.id_range_offset % 2 == 0)
                  && leb (length ss) (place glyphs (length ss) ch i s))) [
                    | inl inside ↦ rw inside (
                        at-shifted glyphs (place glyphs (length ss) ch i s - length ss) s.id_delta
                          words h.delta_fits)
                    | inr out ↦ rw out refl
                  ])
        ])

  loop_lem :
      (rest : List Segment) (i : ℕ)
      → drop i ss ≡ rest
      → i + length rest ≡ length ss
      → All IsSegment rest
      → map_segments access ch (length rest) i ≡ mapped glyphs (length ss) ch i rest
  unfolding map_segments
  loop_lem [] i e n h = refl
  loop_lem (s ∷ rest) i e n (h, hs) =
      rw (at-map (λ s. s.end_code) ss i s rest e, at-map (λ s. s.start_code) ss i s rest e)
        (elim (Bool-cases (leb s.start_code ch && leb ch s.end_code)) [
          | inl in_it ↦ rw in_it (
              ap (λ o. o >>= λ g. ok (some g))
                (segment_glyph_lem i s rest e (omega arith) h (ground (arith, in_it))))
          | inr out ↦ rw out (loop_lem rest (i + 1) (drop_tail ss i s rest e) (omega arith) hs)
        ])

-- For every list of fewer than 2 ^ 16 segments with numbers of 16 bits, every glyph array of such
-- numbers and every character, `map_owned` on format 4 ends as the first segment that holds the
-- character says: in the character plus the delta, modulo 2 ^ 16, where the range offset is zero;
-- else in the glyph that the offset points at, with the delta added, in a bad index where the
-- offset is odd or points before the glyph array, and in a panic where it points past it; and in no
-- glyph where no segment holds the character.
pub map_owned-mapped :
    (language : ℕ) (ss : List Segment) (glyphs : List ℕ) (ch : ℕ)
    → length ss < 2 ^ 16
    → All IsSegment ss
    → All IsWord glyphs
    → map_owned (OwnedCmapSubtable.format4 language (columns ss glyphs)) ch
      ≡ mapped glyphs (length ss) ch 0 ss
unfolding map_owned
map_owned-mapped language ss glyphs ch few h words =
    ap (λ n. map_segments (vec_access (columns ss glyphs)) ch n 0) (length-map ss (λ s. s.end_code))
    ∙ loop_lem ss glyphs ch words few ss 0 refl (omega arith) h
