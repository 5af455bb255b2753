-- ===== src/Glyf/Read.antt =====
-- src/tables/glyf.rs: reading a glyph.
use allsorts.Base.{
  ℕ, zero, suc, ◌+◌, ◌||◌, Bool, true, false, ltb, if◌then◌else◌, List, [], ◌∷◌, ◌++◌, Option, none,
  some, length, replicate,
}
use allsorts.Base.Int.{ℤ, pos, negsuc}
use allsorts.Binary.Read.{
  Reader, pure, lift, ◌>>=◌, read_u8, read_i8, read_u16be, read_i16be, read_slice,
}
use allsorts.Binary.Unchecked.{u16be}
use allsorts.Binary.Vector.{read_vec}
use allsorts.Error.{panic}
use allsorts.Glyf.{
  Point, BoundingBox, SimpleGlyph, CompositeGlyphArgument, u8, i8, u16, i16, CompositeGlyphScale,
  scale, xy, matrix, CompositeGlyph, CompositeGlyphs, GlyphData, simple, composite, Glyph, add_i16,
  with_sign,
}
use allsorts.Glyf.SimpleGlyphFlag
use allsorts.Glyf.CompositeGlyphFlag

unfoldable pub read_bounding_box : Reader BoundingBox
read_bounding_box = do
  x_min ← read_i16be
  y_min ← read_i16be
  x_max ← read_i16be
  y_max ← read_i16be
  pure (record { x_min = x_min; x_max = x_max; y_min = y_min; y_max = y_max })

unfoldable pub read_flag : Reader ℕ
read_flag = do bits ← read_u8; pure (SimpleGlyphFlag.truncate bits)

-- `while flags.len() < number_of_coordinates`, on fuel: each round adds a flag at least.
unfoldable pub read_flags_loop : ℕ → ℕ → List ℕ → Reader (List ℕ)
unfolding read_flag
read_flags_loop zero count flags = lift panic
read_flags_loop (suc fuel) count flags = elim (ltb (length flags) count) [
  | false ↦ pure flags
  | true ↦ read_flag >>= λ flag. elim (SimpleGlyphFlag.is_repeated flag) [
    | true ↦
        read_u8 >>= λ repeats. read_flags_loop fuel count (flags ++ replicate (repeats + 1) flag)
    | false ↦ read_flags_loop fuel count (flags ++ flag ∷ [])
  ]
]

unfoldable pub read_flags : ℕ → Reader (List ℕ)
unfolding read_flags_loop
read_flags count = read_flags_loop (suc count) count []

-- The delta of one point, on the axis that the tests are for
unfoldable pub read_delta : (ℕ → Bool) → (ℕ → Bool) → ℕ → Reader ℤ
read_delta is_short is_same_or_positive flag =
    if is_short flag
    then (do val ← read_u8; pure (with_sign (is_same_or_positive flag) val))
    else if is_same_or_positive flag
    then pure (pos 0)
    else read_i16be

unfoldable pub read_deltas : (ℕ → Bool) → (ℕ → Bool) → List ℕ → Reader (List ℤ)
unfolding read_delta
read_deltas is_short is_same_or_positive [] = pure []
read_deltas is_short is_same_or_positive (flag ∷ flags) =
    read_delta is_short is_same_or_positive flag >>= λ delta.
    read_deltas is_short is_same_or_positive flags >>= λ deltas. pure (delta ∷ deltas)

-- `.zip(..).scan(Point(0, 0), ..)`
unfoldable pub resolve : Point → List ℤ → List ℤ → List Point
resolve prev (x ∷ xs) (y ∷ ys) =
    let point : Point = record { x = add_i16 prev.x x; y = add_i16 prev.y y } in
    point ∷ resolve point xs ys
resolve prev _ _ = []

-- `.last().map(|&last| usize::from(last) + 1).unwrap_or(0)`
abbrev pub coordinate_count : List ℕ → ℕ
coordinate_count [] = 0
coordinate_count (last ∷ []) = last + 1
coordinate_count (end ∷ next ∷ ends) = coordinate_count (next ∷ ends)

unfoldable pub read_outline : List ℕ → List ℕ → Reader SimpleGlyph
unfolding read_flags read_deltas resolve
read_outline end_pts_of_contours instructions = do
  flags ← read_flags (coordinate_count end_pts_of_contours)
  x_coordinates ← read_deltas SimpleGlyphFlag.x_is_short SimpleGlyphFlag.x_is_same_or_positive flags
  y_coordinates ← read_deltas SimpleGlyphFlag.y_is_short SimpleGlyphFlag.y_is_same_or_positive flags
  pure (record {
    end_pts_of_contours = end_pts_of_contours;
    instructions = instructions;
    flags = flags;
    coordinates = resolve (record { x = pos 0; y = pos 0 }) x_coordinates y_coordinates;
  })

unfoldable pub read_simple_glyph : ℕ → Reader SimpleGlyph
unfolding read_outline
read_simple_glyph number_of_contours = do
  end_pts_of_contours ← read_vec u16be number_of_contours
  instruction_length ← read_u16be
  instructions ← read_slice instruction_length
  read_outline end_pts_of_contours instructions

unfoldable pub read_argument : ℕ → Reader CompositeGlyphArgument
read_argument flags =
    if CompositeGlyphFlag.arg_1_and_2_are_words flags
    then (if CompositeGlyphFlag.args_are_xy_values flags
        then (do val ← read_i16be; pure (i16 val))
        else (do val ← read_u16be; pure (u16 val)))
    else (if CompositeGlyphFlag.args_are_xy_values flags
        then (do val ← read_i8; pure (i8 val))
        else (do val ← read_u8; pure (u8 val)))

unfoldable pub read_scale : ℕ → Reader (Option CompositeGlyphScale)
read_scale flags =
    if CompositeGlyphFlag.we_have_a_scale flags
    then (do a ← read_u16be; pure (some (scale a)))
    else if CompositeGlyphFlag.we_have_an_x_and_y_scale flags
    then (do x ← read_u16be; y ← read_u16be; pure (some (xy x y)))
    else if CompositeGlyphFlag.we_have_a_two_by_two flags
    then (do
      a ← read_u16be
      b ← read_u16be
      c ← read_u16be
      d ← read_u16be
      pure (some (matrix a b c d)))
    else pure none

unfoldable pub read_composite_glyph : ℕ → Reader CompositeGlyph
unfolding read_argument read_scale
read_composite_glyph flags = do
  glyph_index ← read_u16be
  argument1 ← read_argument flags
  argument2 ← read_argument flags
  scale_of ← read_scale flags
  pure (record {
    flags = flags;
    glyph_index = glyph_index;
    argument1 = argument1;
    argument2 = argument2;
    scale = scale_of;
  })

-- `loop`, on fuel: each round but the last takes six bytes at least.
unfoldable pub read_components : ℕ → List CompositeGlyph → Bool → Reader CompositeGlyphs
read_components zero glyphs have_instructions = lift panic
read_components (suc fuel) glyphs have_instructions = read_u16be >>= λ bits.
    let flags = CompositeGlyphFlag.truncate bits in
    read_composite_glyph flags >>= λ glyph.
    let have = have_instructions || CompositeGlyphFlag.we_have_instructions flags in
    elim (CompositeGlyphFlag.more_components flags) [
      | true ↦ read_components fuel (glyphs ++ glyph ∷ []) have
      | false ↦ pure (record { glyphs = glyphs ++ glyph ∷ []; have_instructions = have })
    ]

unfoldable pub read_composite_glyphs : Reader CompositeGlyphs
unfolding read_components
read_composite_glyphs c = read_components (suc (length c.scope.bytes)) [] false c

-- The instructions of a composite glyph
unfoldable pub read_instructions : Bool → Reader (List ℕ)
read_instructions have_instructions =
    (if have_instructions then read_u16be else pure 0) >>= λ instruction_length.
    read_slice instruction_length

unfoldable pub read_glyph_data : ℤ → Reader GlyphData
unfolding read_simple_glyph read_composite_glyphs
read_glyph_data (pos number_of_contours) = do
  glyph ← read_simple_glyph number_of_contours
  pure (simple glyph)
read_glyph_data (negsuc _) = do
  glyphs ← read_composite_glyphs
  instructions ← read_instructions glyphs.have_instructions
  pure (composite glyphs.glyphs instructions)

unfoldable pub read_after_count : ℤ → Reader Glyph
read_after_count number_of_contours = do
  bounding_box ← read_bounding_box
  data_of ← read_glyph_data number_of_contours
  pure (record {
    number_of_contours = number_of_contours;
    bounding_box = bounding_box;
    glyph_data = data_of;
  })

unfoldable pub read_glyph : Reader Glyph
unfolding read_after_count
read_glyph = do number_of_contours ← read_i16be; read_after_count number_of_contours
