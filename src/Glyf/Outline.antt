-- ===== src/Glyf/Outline.antt =====
-- src/tables/glyf.rs: what reading a simple glyph can end in.
use allsorts.Base.{
  ℕ, zero, suc, ◌+◌, ◌^◌, ◌≤◌, ◌<◌, ◌≡◌, refl, ap, ◌∙◌, arith, ltb, Bool, List, [], ◌∷◌, ◌++◌,
  length, length-append, length-replicate, replicate, Bool-cases, inl, inr, ltb→lt,
}
use allsorts.Base.Int.{ℤ, pos}
use allsorts.Binary.Read.{read_u8, read_i8, read_u16be, read_i16be, read_slice}
use allsorts.Binary.Read.Values.{be_value, read_unchecked_u16be-Exact}
use allsorts.Binary.Read.Fixed.{
  signed_value, read_u8-Fixed, read_i8-Fixed, read_u16be-Fixed, read_i16be-Fixed,
}
use allsorts.Binary.Read.Safety.{IsSafe, IsSafe->>=, IsSafe-pure, Fixed-IsSafe, IsSafe-read_slice}
use allsorts.Binary.Read.Gives.{Gives, Gives-pure, Gives->>=, Gives-bound}
use allsorts.Binary.Unchecked.{u16be}
use allsorts.Binary.Vector.{read_vec, read_vec-IsSafe}
use allsorts.Glyf.{Point, SimpleGlyph, with_sign}
use allsorts.Glyf.SimpleGlyphFlag
use allsorts.Glyf.Read.{
  read_flag, read_flags_loop, read_flags, read_delta, read_deltas, resolve, coordinate_count,
  read_outline, read_simple_glyph,
}

pub word-IsSafe : IsSafe read_u16be
word-IsSafe = Fixed-IsSafe read_u16be 2 be_value read_u16be-Fixed

pub byte-IsSafe : IsSafe read_u8
byte-IsSafe = Fixed-IsSafe read_u8 1 be_value read_u8-Fixed

pub short-IsSafe : IsSafe read_i16be
short-IsSafe = Fixed-IsSafe read_i16be 2 (signed_value 16) read_i16be-Fixed

pub small-IsSafe : IsSafe read_i8
small-IsSafe = Fixed-IsSafe read_i8 1 (signed_value 8) read_i8-Fixed

flag-IsSafe : IsSafe read_flag
unfolding read_flag
flag-IsSafe = IsSafe->>= read_u8 _ byte-IsSafe (λ bits. IsSafe-pure (SimpleGlyphFlag.truncate bits))

-- At least so many flags.
abbrev AtLeast : ℕ → List ℕ → Type 0
AtLeast count flags = count ≤ length flags

flags_loop-Gives :
    (fuel count : ℕ) (flags : List ℕ)
    → count < length flags + fuel
    → 0 < fuel
    → Gives (AtLeast count) (read_flags_loop fuel count flags)
unfolding read_flags_loop
flags_loop-Gives zero count flags h some_fuel = absurd (omega arith)
flags_loop-Gives (suc fuel) count flags h some_fuel = elim (Bool-cases (ltb (length flags) count)) [
  | inr done ↦ rw (read_flags_loop, done) (Gives-pure (AtLeast count) flags (ground (arith, done)))
  | inl more ↦
      rw (read_flags_loop, more)
        (let short = ltb→lt (length flags) count more in
          Gives->>= (AtLeast count) read_flag _ flag-IsSafe (λ flag.
            elim (Bool-cases (SimpleGlyphFlag.is_repeated flag)) [
              | inl twice ↦ rw twice (
                  Gives->>= (AtLeast count) read_u8 _ byte-IsSafe (λ n.
                    flags_loop-Gives fuel count (flags ++ replicate (n + 1) flag)
                      (omega (
                        arith,
                        length-append flags (replicate (n + 1) flag),
                        length-replicate (n + 1) flag,
                      ))
                      (omega arith)))
              | inr once ↦ rw once (
                  flags_loop-Gives fuel count (flags ++ flag ∷ [])
                    (omega (arith, length-append flags (flag ∷ []))) (omega arith))
            ]))
]

flags-Gives : (count : ℕ) → Gives (AtLeast count) (read_flags count)
unfolding read_flags
flags-Gives count = flags_loop-Gives (suc count) count [] (omega arith) (omega arith)

delta-IsSafe : (s p : ℕ → Bool) (flag : ℕ) → IsSafe (read_delta s p flag)
unfolding read_delta
delta-IsSafe s p flag = elim (Bool-cases (s flag)) [
  | inl a ↦ rw a (IsSafe->>= read_u8 _ byte-IsSafe (λ val. IsSafe-pure (with_sign (p flag) val)))
  | inr a ↦ rw a (elim (Bool-cases (p flag)) [
    | inl b ↦ rw b (IsSafe-pure (pos 0))
    | inr b ↦ rw b short-IsSafe
  ])
]

abbrev SameLength : List ℕ → List ℤ → Type 0
SameLength flags deltas = length deltas ≡ length flags

deltas-Gives : (s p : ℕ → Bool) (flags : List ℕ) → Gives (SameLength flags) (read_deltas s p flags)
unfolding read_deltas
deltas-Gives s p [] = Gives-pure (SameLength []) [] refl
deltas-Gives s p (flag ∷ flags) =
    Gives->>= (SameLength (flag ∷ flags)) (read_delta s p flag) _ (delta-IsSafe s p flag) (λ d.
      Gives-bound (SameLength flags) (SameLength (flag ∷ flags)) (read_deltas s p flags) _
        (deltas-Gives s p flags)
        (λ ds e. Gives-pure (SameLength (flag ∷ flags)) (d ∷ ds) (ap suc e)))

length-resolve :
    (xs ys : List ℤ) (prev : Point)
    → length xs ≡ length ys
    → length (resolve prev xs ys) ≡ length xs
unfolding resolve
length-resolve [] [] prev h = refl
length-resolve [] (y ∷ ys) prev h = refl
length-resolve (x ∷ xs) [] prev h = absurd (omega arith)
length-resolve (x ∷ xs) (y ∷ ys) prev h = ap suc (length-resolve xs ys _ (omega arith))

-- A point for each flag, and no fewer than the contours have.
pub record IsOutline (g : SimpleGlyph) : Type 0 where
  pub paired : length g.coordinates ≡ length g.flags
  pub covered : coordinate_count g.end_pts_of_contours ≤ length g.flags

IsOutline-Gives : (ends instructions : List ℕ) → Gives IsOutline (read_outline ends instructions)
unfolding read_outline
IsOutline-Gives ends instructions =
    Gives-bound (AtLeast (coordinate_count ends)) IsOutline (read_flags (coordinate_count ends)) _
      (flags-Gives (coordinate_count ends))
      (λ flags h.
        Gives-bound (SameLength flags) IsOutline
          (read_deltas SimpleGlyphFlag.x_is_short SimpleGlyphFlag.x_is_same_or_positive flags) _
          (deltas-Gives SimpleGlyphFlag.x_is_short SimpleGlyphFlag.x_is_same_or_positive flags)
          (λ xs i.
            Gives-bound (SameLength flags) IsOutline
              (read_deltas SimpleGlyphFlag.y_is_short SimpleGlyphFlag.y_is_same_or_positive flags) _
              (deltas-Gives SimpleGlyphFlag.y_is_short SimpleGlyphFlag.y_is_same_or_positive flags)
              (λ ys j. Gives-pure IsOutline _ (record {
                paired = length-resolve xs ys _ (omega (arith, i, j)) ∙ i;
                covered = h;
              }))))

pub simple-Gives : (n : ℕ) → n < 2 ^ 16 → Gives IsOutline (read_simple_glyph n)
unfolding read_simple_glyph
simple-Gives n small =
    Gives->>= IsOutline (read_vec u16be n) _
      (read_vec-IsSafe u16be be_value read_unchecked_u16be-Exact n (omega arith))
      (λ ends. Gives->>= IsOutline read_u16be _ word-IsSafe (λ len.
        Gives->>= IsOutline (read_slice len) _ (IsSafe-read_slice len)
          (λ instructions. IsOutline-Gives ends instructions)))
