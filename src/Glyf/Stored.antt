-- ===== src/Glyf/Stored.antt =====
-- src/tables/glyf.rs: what reading a simple glyph gives on the bytes that the writer makes of it: words
-- for the differences of the coordinates, and flags that say no more than that.
use allsorts.Base.{
  ℕ, zero, suc, ◌+◌, ◌^◌, ◌<◌, ◌≡◌, refl, sym, ap, subst, arith, ltb, Bool, true, false, List, [],
  ◌∷◌, ◌++◌, map, length, length-append, length-map, All, bit_and,
}
use mathlib.Core.List.{append_assoc, append-nil}
use allsorts.Base.Bits.{bit_and-one}
use allsorts.Base.Int.{ℤ, pos}
use allsorts.Binary.Read.{pure, ◌>>=◌, read_u16be, read_i16be, read_slice, read_u8}
use allsorts.Binary.Read.Remaining.{Reads, Reads->>=, Reads-map, Reads-pure}
use allsorts.Binary.Read.Values.{be_value}
use allsorts.Binary.Read.Fixed.{Fixed-Reads, read_u8-Fixed, read_slice-Fixed}
use allsorts.Binary.Unchecked.{u16be}
use allsorts.Binary.Vector.{read_vec}
use allsorts.Binary.Write.{be_bytes, pattern_of}
use allsorts.Binary.Write.RoundTrip.{i16be_Reads}
use allsorts.Binary.Write.Values.{InRange}
use allsorts.Layout.Words.{words_bytes, words_Reads, word_Reads}
use allsorts.Glyf.{Point, SimpleGlyph, add_i16, sub_i16}
use allsorts.Glyf.SimpleGlyphFlag
use allsorts.Glyf.Read.{
  read_flag, read_flags_loop, read_flags, read_delta, read_deltas, resolve, coordinate_count,
  read_outline, read_simple_glyph,
}

sub_i16-InRange : (a b : ℤ) → InRange 16 (sub_i16 a b)
unfolding sub_i16
sub_i16-InRange a b = ground arith

-- The sum with a difference wraps back.
add_i16-sub_i16 : (a b : ℤ) → InRange 16 a → InRange 16 b → add_i16 b (sub_i16 a b) ≡ a
unfolding add_i16 sub_i16
add_i16-sub_i16 a b h k = ground arith

-- The differences of a list, and their bytes.
abbrev pub deltas : ℤ → List ℤ → List ℤ
deltas prev [] = []
deltas prev (x ∷ xs) = sub_i16 x prev ∷ deltas x xs

abbrev pub shorts_bytes : List ℤ → List ℕ
shorts_bytes [] = []
shorts_bytes (x ∷ xs) = be_bytes 2 (pattern_of 16 x) ++ shorts_bytes xs

-- A flag that says no more than whether the point is on the curve
abbrev IsPlain : ℕ → Type 0
IsPlain flag = flag < 2

plain_flags :
    (f : ℕ)
    → IsPlain f
    → (SimpleGlyphFlag.truncate f ≡ f)
      × (SimpleGlyphFlag.is_repeated f ≡ false)
      × (SimpleGlyphFlag.x_is_short f ≡ false)
      × (SimpleGlyphFlag.y_is_short f ≡ false)
      × (SimpleGlyphFlag.x_is_same_or_positive f ≡ false)
      × (SimpleGlyphFlag.y_is_same_or_positive f ≡ false)
plain_flags zero h = (refl, refl, refl, refl, refl, refl)
plain_flags (suc zero) h = (refl, refl, refl, refl, refl, refl)
plain_flags (suc (suc f)) h = absurd (omega arith)

flag_Reads : (f : ℕ) → IsPlain f → Reads read_flag (f ∷ []) f
unfolding read_flag
flag_Reads f h =
    let e : be_value (f ∷ []) ≡ f = omega arith in
    let byte : Reads read_u8 (f ∷ []) f =
      subst (λ y. Reads read_u8 (f ∷ []) y) e
        (Fixed-Reads read_u8 be_value (f ∷ []) read_u8-Fixed) in
    subst (λ y. Reads read_flag (f ∷ []) y) (plain_flags f h).0
      (Reads-map read_u8 SimpleGlyphFlag.truncate (f ∷ []) f byte)

flags_loop_Reads :
    (flags : List ℕ) (fuel count : ℕ) (before : List ℕ)
    → All IsPlain flags
    → length flags < fuel
    → count ≡ length before + length flags
    → Reads (read_flags_loop fuel count before) flags (before ++ flags)
unfolding read_flags_loop
flags_loop_Reads flags zero count before h l e = absurd (omega arith)
flags_loop_Reads [] (suc fuel) count before h l e =
    let done : ltb (length before) count ≡ false = ground (arith, e) in
    rw (read_flags_loop, done)
      (subst (λ xs. Reads (pure before) [] xs) (sym (append-nil before)) (Reads-pure before))
flags_loop_Reads (f ∷ flags) (suc fuel) count before (h, hs) l e =
    let more : ltb (length before) count ≡ true = ground (arith, e) in
    rw (read_flags_loop, more)
      (Reads->>= read_flag _ (f ∷ []) flags f (before ++ f ∷ flags) (flag_Reads f h) (
        rw (plain_flags f h).1 (
          subst (λ xs. Reads (read_flags_loop fuel count (before ++ f ∷ [])) flags xs)
            (append_assoc before (f ∷ []) flags)
            (flags_loop_Reads flags fuel count (before ++ f ∷ []) hs (omega arith)
              (omega (arith, length-append before (f ∷ [])))))))

flags_Reads :
    (flags : List ℕ) (count : ℕ)
    → All IsPlain flags
    → count ≡ length flags
    → Reads (read_flags count) flags flags
unfolding read_flags
flags_Reads flags count h e =
    flags_loop_Reads flags (suc count) count [] h (omega arith) (omega arith)

-- With plain flags a coordinate is a word.
abbrev Unset : (ℕ → Bool) → Type 0
Unset test = (f : ℕ) → IsPlain f → test f ≡ false

deltas_Reads :
    (s p : ℕ → Bool) (flags : List ℕ) (ds : List ℤ)
    → Unset s
    → Unset p
    → All IsPlain flags
    → All (InRange 16) ds
    → length flags ≡ length ds
    → Reads (read_deltas s p flags) (shorts_bytes ds) ds
unfolding read_deltas read_delta
deltas_Reads s p [] [] us up h i e = Reads-pure []
deltas_Reads s p [] (d ∷ ds) us up h i e = absurd (omega arith)
deltas_Reads s p (f ∷ flags) [] us up h i e = absurd (omega arith)
deltas_Reads s p (f ∷ flags) (d ∷ ds) us up (h, hs) (i, is) e =
    rw (us f h, up f h)
      (Reads->>= read_i16be _ (be_bytes 2 (pattern_of 16 d)) (shorts_bytes ds) d (d ∷ ds)
        (i16be_Reads d i)
        (Reads-map (read_deltas s p flags) (λ rest. d ∷ rest) (shorts_bytes ds) ds
          (deltas_Reads s p flags ds us up hs is (omega arith))))

abbrev IsPoint : Point → Type 0
IsPoint p = InRange 16 p.x × InRange 16 p.y

abbrev pub xs_of : List Point → List ℤ
xs_of points = map (λ p. p.x) points

abbrev pub ys_of : List Point → List ℤ
ys_of points = map (λ p. p.y) points

deltas-InRange : (prev : ℤ) (xs : List ℤ) → All (InRange 16) (deltas prev xs)
deltas-InRange prev [] = tt
deltas-InRange prev (x ∷ xs) = (sub_i16-InRange x prev, deltas-InRange x xs)

length-deltas : (prev : ℤ) (xs : List ℤ) → length (deltas prev xs) ≡ length xs
length-deltas prev [] = refl
length-deltas prev (x ∷ xs) = ap suc (length-deltas x xs)

resolve-deltas :
    (prev : Point) (points : List Point)
    → IsPoint prev
    → All IsPoint points
    → resolve prev (deltas prev.x (xs_of points)) (deltas prev.y (ys_of points)) ≡ points
unfolding resolve
resolve-deltas prev [] h hs = refl
resolve-deltas prev (p ∷ points) h (i, is) =
    rw (add_i16-sub_i16 p.x prev.x i.0 h.0, add_i16-sub_i16 p.y prev.y i.1 h.1)
      (ap (λ ps. p ∷ ps) (resolve-deltas p points i is))

abbrev origin : Point
origin = record { x = pos 0; y = pos 0 }

-- The flags as they are written
abbrev pub masked : List ℕ → List ℕ
masked flags = map (λ f. bit_and f 1) flags

masked-IsPlain : (flags : List ℕ) → All IsPlain (masked flags)
masked-IsPlain [] = tt
masked-IsPlain (f ∷ flags) = (omega (arith, bit_and-one f), masked-IsPlain flags)

abbrev pub outline_bytes : SimpleGlyph → List ℕ
outline_bytes g =
    masked g.flags
    ++ (shorts_bytes (deltas (pos 0) (xs_of g.coordinates))
        ++ shorts_bytes (deltas (pos 0) (ys_of g.coordinates)))

abbrev pub simple_bytes : SimpleGlyph → List ℕ
simple_bytes g =
    words_bytes g.end_pts_of_contours
    ++ (be_bytes 2 (length g.instructions) ++ (g.instructions ++ outline_bytes g))

-- A simple glyph that can be stored: a flag and a point with coordinates of 16 bits for each point of
-- the contours, fewer than 2 ^ 15 contours and 2 ^ 16 bytes of instructions.
pub record IsSimple (g : SimpleGlyph) : Type 0 where
  pub ends : All (λ x. x < 2 ^ 16) g.end_pts_of_contours
  pub few_ends : length g.end_pts_of_contours < 2 ^ 15
  pub few_instructions : length g.instructions < 2 ^ 16
  pub flagged : length g.flags ≡ coordinate_count g.end_pts_of_contours
  pub pointed : length g.coordinates ≡ coordinate_count g.end_pts_of_contours
  pub points : All IsPoint g.coordinates

outline_Reads :
    (g : SimpleGlyph)
    → IsSimple g
    → Reads
        (read_outline g.end_pts_of_contours g.instructions)
        (outline_bytes g)
        (record g { flags = masked g.flags })
unfolding read_outline
outline_Reads g h =
    let fs = masked g.flags in
    let xs = deltas (pos 0) (xs_of g.coordinates) in
    let ys = deltas (pos 0) (ys_of g.coordinates) in
    let plain = masked-IsPlain g.flags in
    let outline_with : List Point → SimpleGlyph = λ ps. record g { flags = fs; coordinates = ps } in
    let n : length fs ≡ length g.flags = length-map g.flags (λ f. bit_and f 1) in
    let nx : length fs ≡ length xs = omega (
      arith,
      n,
      length-deltas (pos 0) (xs_of g.coordinates),
      length-map g.coordinates (λ p. p.x),
      h.flagged,
      h.pointed,
    ) in
    let ny : length fs ≡ length ys = omega (
      arith,
      n,
      length-deltas (pos 0) (ys_of g.coordinates),
      length-map g.coordinates (λ p. p.y),
      h.flagged,
      h.pointed,
    ) in
    Reads->>= (read_flags (coordinate_count g.end_pts_of_contours)) _ fs
      (shorts_bytes xs ++ shorts_bytes ys) fs _
      (flags_Reads fs _ plain (omega (arith, n, h.flagged)))
      (Reads->>= (read_deltas SimpleGlyphFlag.x_is_short SimpleGlyphFlag.x_is_same_or_positive fs) _
        (shorts_bytes xs) (shorts_bytes ys) xs _
        (deltas_Reads _ _ fs xs (λ f k. (plain_flags f k).2) (λ f k. (plain_flags f k).4) plain
          (deltas-InRange (pos 0) (xs_of g.coordinates)) nx)
        (subst
          (λ ps.
            Reads
              (read_deltas SimpleGlyphFlag.y_is_short SimpleGlyphFlag.y_is_same_or_positive fs
                >>= λ cs. pure (outline_with (resolve origin xs cs)))
              (shorts_bytes ys) (outline_with ps))
          (resolve-deltas origin g.coordinates
            ((omega arith, omega arith), (omega arith, omega arith)) h.points)
          (Reads-map
            (read_deltas SimpleGlyphFlag.y_is_short SimpleGlyphFlag.y_is_same_or_positive fs)
            (λ cs. outline_with (resolve origin xs cs)) (shorts_bytes ys) ys
            (deltas_Reads _ _ fs ys (λ f k. (plain_flags f k).3) (λ f k. (plain_flags f k).5) plain
              (deltas-InRange (pos 0) (ys_of g.coordinates)) ny))))

pub simple_Reads :
    (g : SimpleGlyph)
    → IsSimple g
    → Reads
        (read_simple_glyph (length g.end_pts_of_contours))
        (simple_bytes g)
        (record g { flags = masked g.flags })
unfolding read_simple_glyph
simple_Reads g h =
    Reads->>= (read_vec u16be (length g.end_pts_of_contours)) _ (words_bytes g.end_pts_of_contours)
      (be_bytes 2 (length g.instructions) ++ (g.instructions ++ outline_bytes g))
      g.end_pts_of_contours _ (words_Reads g.end_pts_of_contours h.ends (omega (arith, h.few_ends)))
      (Reads->>= read_u16be _ (be_bytes 2 (length g.instructions))
        (g.instructions ++ outline_bytes g) (length g.instructions) _
        (word_Reads (length g.instructions) h.few_instructions)
        (Reads->>= (read_slice (length g.instructions)) _ g.instructions (outline_bytes g)
          g.instructions _
          (Fixed-Reads (read_slice (length g.instructions)) (λ bs. bs) g.instructions
            (read_slice-Fixed (length g.instructions)))
          (outline_Reads g h)))
