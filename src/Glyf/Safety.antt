-- ===== src/Glyf/Safety.antt =====
-- src/tables/glyf.rs: what reading a glyph can end in.
use allsorts.Base.{
  ℕ, All, All-append, ◌+◌, ◌≡◌, refl, ◌∷◌, zero, suc, ◌^◌, ◌<◌, arith, ltb, Bool, true, false, List,
  [], length, Bool-cases, inl, inr, ltb→lt, leb, leb→le, take, Option, none, some,
}
use allsorts.Base.Int.{ℤ, pos, negsuc}
use allsorts.Binary.Read.{
  Reader, ReadCtxt, IsValid, remaining, advance, resume, pure, ◌>>=◌, read_u8, read_i8, read_u16be,
  read_i16be, signed,
}
use allsorts.Binary.Read.Values.{be_value}
use allsorts.Binary.Read.Fixed.{read_u16be-Fixed, read_i16be-Fixed}
use allsorts.Binary.Read.Safety.{
  Follows, Follows-refl, Follows-trans, Follows-advance, IsSafe, IsSafe->>=, IsSafe-pure,
  IsSafe-read_slice,
}
use allsorts.Binary.Read.Gives.{
  Gives, Gives-pure, Gives->>=, Gives-bound, Gives-u16be, Gives-weaken,
}
use allsorts.Error.{Outcome, ok, err, panic, undefined, ParseError, Ends}
use allsorts.Glyf.{
  BoundingBox, CompositeGlyph, CompositeGlyphScale, CompositeGlyphs, GlyphData, simple, composite,
  Glyph, u8, i8, u16, i16, scale, xy, matrix,
}
use allsorts.Glyf.CompositeGlyphFlag
use allsorts.Glyf.Outline.{
  word-IsSafe, byte-IsSafe, short-IsSafe, small-IsSafe, IsOutline, simple-Gives,
}
use allsorts.Glyf.Read.{
  read_bounding_box, read_simple_glyph, read_argument, read_scale, read_composite_glyph,
  read_components, read_composite_glyphs, read_instructions, read_glyph_data, read_glyph,
  read_after_count,
}

argument-IsSafe : (flags : ℕ) → IsSafe (read_argument flags)
unfolding read_argument
argument-IsSafe flags = elim (Bool-cases (CompositeGlyphFlag.arg_1_and_2_are_words flags)) [
  | inl a ↦ rw a (elim (Bool-cases (CompositeGlyphFlag.args_are_xy_values flags)) [
    | inl b ↦ rw b (IsSafe->>= read_i16be _ short-IsSafe (λ v. IsSafe-pure (i16 v)))
    | inr b ↦ rw b (IsSafe->>= read_u16be _ word-IsSafe (λ v. IsSafe-pure (u16 v)))
  ])
  | inr a ↦ rw a (elim (Bool-cases (CompositeGlyphFlag.args_are_xy_values flags)) [
    | inl b ↦ rw b (IsSafe->>= read_i8 _ small-IsSafe (λ v. IsSafe-pure (i8 v)))
    | inr b ↦ rw b (IsSafe->>= read_u8 _ byte-IsSafe (λ v. IsSafe-pure (u8 v)))
  ])
]

-- A word behind which the reading is safe
after_word : {A : Type 0} (f : ℕ → Reader A) → ((x : ℕ) → IsSafe (f x)) → IsSafe (read_u16be >>= f)
after_word f h = IsSafe->>= read_u16be f word-IsSafe h

scale-IsSafe : (flags : ℕ) → IsSafe (read_scale flags)
unfolding read_scale
scale-IsSafe flags = elim (Bool-cases (CompositeGlyphFlag.we_have_a_scale flags)) [
  | inl a ↦ rw a (after_word _ (λ v. IsSafe-pure (some (scale v))))
  | inr a ↦ rw a (elim (Bool-cases (CompositeGlyphFlag.we_have_an_x_and_y_scale flags)) [
    | inl b ↦ rw b (after_word _ (λ v. after_word _ (λ w. IsSafe-pure (some (xy v w)))))
    | inr b ↦ rw b (elim (Bool-cases (CompositeGlyphFlag.we_have_a_two_by_two flags)) [
      | inl d ↦ rw d (
          after_word _ (λ v.
            after_word _
              (λ w. after_word _ (λ x. after_word _ (λ y. IsSafe-pure (some (matrix v w x y)))))))
      | inr d ↦ rw d (IsSafe-pure {A = Option CompositeGlyphScale} none)
    ])
  ])
]

-- A component names its glyph by 16 bits.
abbrev pub HasIndex : CompositeGlyph → Type 0
HasIndex glyph = glyph.glyph_index < 2 ^ 16

component-Gives : (flags : ℕ) → Gives HasIndex (read_composite_glyph flags)
unfolding read_composite_glyph
component-Gives flags = Gives-u16be HasIndex _ (λ glyph_index fits.
    Gives->>= HasIndex (read_argument flags) _ (argument-IsSafe flags) (λ a.
      Gives->>= HasIndex (read_argument flags) _ (argument-IsSafe flags) (λ b.
        Gives->>= HasIndex (read_scale flags) _ (scale-IsSafe flags) (λ s.
          Gives-pure HasIndex
            (record {
              flags = flags;
              glyph_index = glyph_index;
              argument1 = a;
              argument2 = b;
              scale = s;
            })
            fits))))

abbrev HasIndices : CompositeGlyphs → Type 0
HasIndices gs = All HasIndex gs.glyphs

-- What follows a call that has ended, seen from an earlier context
resume-Ends :
    {A B : Type 0} (P : A → Type 0) (Q : B → Type 0) (c : ReadCtxt) (f : A → Reader B)
    (o : Outcome ParseError (A × ReadCtxt)) (d : ReadCtxt)
    → Ends (λ r. Follows d r.1 × P r.0) o
    → ((a : A) (e : ReadCtxt) → Follows d e → P a → Ends (λ r. Follows c r.1 × Q r.0) (f a e))
    → Ends (λ r. Follows c r.1 × Q r.0) (resume f o)
resume-Ends P Q c f (ok (a, e)) d h k = k a e h.0 h.1
resume-Ends P Q c f (err e) d h k = tt
resume-Ends P Q c f panic d h k = h
resume-Ends P Q c f undefined d h k = h

-- Each round takes two bytes at least, so one for each byte that is left is enough.
components_Ends :
    (fuel : ℕ) (glyphs : List CompositeGlyph) (have : Bool) (c d : ReadCtxt)
    → Follows c d
    → All HasIndex glyphs
    → length d.scope.bytes < fuel + d.offset
    → Ends (λ r. Follows c r.1 × HasIndices r.0) (read_components fuel glyphs have d)
unfolding read_components
components_Ends zero glyphs have c d f i h = absurd (omega (arith, f.valid.bounded))
components_Ends (suc fuel) glyphs have c d f i h =
    rw (read_u16be-Fixed d f.valid) (elim (Bool-cases (leb 2 (length (remaining d)))) [
      | inr short ↦ rw short tt
      | inl fits ↦ rw fits (
          let bits = be_value (take 2 (remaining d)) in
          let flags = CompositeGlyphFlag.truncate bits in
          let go = Follows-advance d 2 f.valid (leb→le 2 _ fits) in
          resume-Ends HasIndex HasIndices c _ (read_composite_glyph flags (advance d 2))
            (advance d 2) (component-Gives flags (advance d 2) go.valid)
            (λ glyph e k has.
              let all = All-append HasIndex glyphs (glyph ∷ []) i (has, tt) in
              let on = Follows-trans c d e f (Follows-trans d (advance d 2) e go k) in
              elim (Bool-cases (CompositeGlyphFlag.more_components flags)) [
                | inl more ↦ rw more (
                    components_Ends fuel _ _ c e on all (rw k.same_scope (omega (arith, k.onward))))
                | inr last ↦ rw last (on, all)
              ]))
    ])

composites-Gives : Gives HasIndices read_composite_glyphs
unfolding read_composite_glyphs
composites-Gives c v =
    components_Ends (suc (length c.scope.bytes)) [] false c c (Follows-refl c v) tt (omega arith)

instructions-IsSafe : (have : Bool) → IsSafe (read_instructions have)
unfolding read_instructions
instructions-IsSafe true = after_word _ (λ n. IsSafe-read_slice n)
instructions-IsSafe false =
    IsSafe->>= (pure {A = ℕ} 0) _ (IsSafe-pure {A = ℕ} 0) (λ n. IsSafe-read_slice n)

box-IsSafe : IsSafe read_bounding_box
unfolding read_bounding_box
box-IsSafe = IsSafe->>= read_i16be _ short-IsSafe (λ a. IsSafe->>= read_i16be _ short-IsSafe (λ b.
    IsSafe->>= read_i16be _ short-IsSafe (λ d. IsSafe->>= read_i16be _ short-IsSafe (λ e.
      IsSafe-pure {A = BoundingBox} (record { x_min = a; x_max = d; y_min = b; y_max = e })))))

-- A count of contours is below 2 ^ 15, or it is negative.
abbrev pub IsCount : ℤ → Type 0
IsCount (pos n) = n < 2 ^ 15
IsCount (negsuc n) = Unit {0}

signed-IsCount : (x : ℕ) → IsCount (signed 16 x)
signed-IsCount x = elim (Bool-cases (ltb x (2 ^ 15))) [
  | inl a ↦ rw a (ltb→lt x (2 ^ 15) a)
  | inr a ↦ rw a tt
]

pub IsCount-Gives : Gives IsCount read_i16be
IsCount-Gives c v = rw (read_i16be-Fixed c v) (elim (Bool-cases (leb 2 (length (remaining c)))) [
  | inl fits ↦
      rw fits
        (Follows-advance c 2 v (leb→le 2 _ fits), signed-IsCount (be_value (take 2 (remaining c))))
  | inr short ↦ rw short tt
])

-- The data is composite where the count is negative, and simple elsewhere. A simple glyph has its
-- points, and the components of a composite glyph name glyphs by 16 bits.
abbrev pub Fitting : ℤ → GlyphData → Type 0
Fitting (pos n) (simple g) = IsOutline g
Fitting (negsuc n) (composite glyphs instructions) = All HasIndex glyphs
Fitting (pos n) (composite glyphs instructions) = ⊥
Fitting (negsuc n) (simple g) = ⊥

abbrev pub IsGlyph : Glyph → Type 0
IsGlyph g = Fitting g.number_of_contours g.glyph_data

data-Gives : (n : ℤ) → IsCount n → Gives (Fitting n) (read_glyph_data n)
unfolding read_glyph_data
data-Gives (pos n) small =
    Gives-bound IsOutline (Fitting (pos n)) (read_simple_glyph n) _ (simple-Gives n (omega arith))
      (λ g h. Gives-pure (Fitting (pos n)) (simple g) h)
data-Gives (negsuc n) small =
    Gives-bound HasIndices (Fitting (negsuc n)) read_composite_glyphs _ composites-Gives
      (λ glyphs h.
        Gives->>= (Fitting (negsuc n)) (read_instructions glyphs.have_instructions) _
          (instructions-IsSafe glyphs.have_instructions)
          (λ instructions.
            Gives-pure (Fitting (negsuc n)) (composite glyphs.glyphs instructions) h))

-- What follows the count
abbrev pub WithCount : ℤ → Glyph → Type 0
WithCount n g = (g.number_of_contours ≡ n) × IsGlyph g

pub after_count-Gives : (n : ℤ) → IsCount n → Gives (WithCount n) (read_after_count n)
unfolding read_after_count
after_count-Gives n small = Gives->>= (WithCount n) read_bounding_box _ box-IsSafe (λ box.
    Gives-bound (Fitting n) (WithCount n) (read_glyph_data n) _ (data-Gives n small) (λ d h.
      Gives-pure (WithCount n)
        (record { number_of_contours = n; bounding_box = box; glyph_data = d }) (refl, h)))

-- On every valid context `read_glyph` ends, the loops over flags and components included, in an
-- error or in a glyph with a valid context in the same scope, no further back; it neither panics
-- nor reads out of bounds. A simple glyph has as many points as flags, and no fewer than its
-- contours have; a glyph is composite where its count of contours is negative, and its components
-- name glyphs by 16 bits.
pub read_glyph-IsGlyph :
    (c : ReadCtxt) → IsValid c → Ends (λ r. Follows c r.1 × IsGlyph r.0) (read_glyph c)
unfolding read_glyph
read_glyph-IsGlyph =
    Gives-bound IsCount IsGlyph read_i16be read_after_count IsCount-Gives (λ n small.
      Gives-weaken (WithCount n) IsGlyph (read_after_count n) (after_count-Gives n small)
        (λ g h. h.1))
