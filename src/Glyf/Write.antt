-- ===== src/Glyf/Write.antt =====
-- src/tables/glyf.rs: writing a glyph.
use allsorts.Base.{
  ℕ, ◌^◌, ◌==◌, ◌||◌, bit_and, Bool, false, if◌then◌else◌, List, [], ◌∷◌, Option, none, some,
  length,
}
use allsorts.Base.Int.{ℤ, pos}
use allsorts.Binary.Write.{
  WriteContext, WriteBinary, write_u8, write_i8, write_u16be, write_i16be, write_vec, try_from,
}
use allsorts.Error.{Outcome, ok, panic, WriteError, ◌>>=◌}
use allsorts.Glyf.{
  Point, BoundingBox, SimpleGlyph, CompositeGlyphArgument, u8, i8, u16, i16, CompositeGlyphScale,
  scale, xy, matrix, CompositeGlyph, GlyphData, simple, composite, Glyph, sub_i16,
}
use allsorts.Glyf.SimpleGlyphFlag
use allsorts.Glyf.CompositeGlyphFlag

unfoldable pub write_bounding_box : WriteBinary BoundingBox
write_bounding_box ctx bbox w = write_i16be ctx bbox.x_min w >>= λ w.
    write_i16be ctx bbox.y_min w >>= λ w.
    write_i16be ctx bbox.x_max w >>= write_i16be ctx bbox.y_max

-- `flag & mask`, written
unfoldable pub write_flag : WriteBinary ℕ
write_flag ctx flag = write_u8 ctx (bit_and flag SimpleGlyphFlag.on_curve_point)

-- The differences of the coordinates on one axis, from a previous one on
unfoldable pub write_deltas :
    (ctx : WriteContext) → (Point → ℤ) → ℤ → List Point → ctx.State → Outcome WriteError ctx.State
write_deltas ctx axis prev [] w = ok w
write_deltas ctx axis prev (point ∷ points) w =
    write_i16be ctx (sub_i16 (axis point) prev) w >>= write_deltas ctx axis (axis point) points

-- What follows the assertion
unfoldable pub write_outline : WriteBinary SimpleGlyph
unfolding write_flag write_deltas
write_outline ctx glyph w = write_vec write_u16be ctx glyph.end_pts_of_contours w >>= λ w.
    try_from (2 ^ 16) (length glyph.instructions) >>= λ instruction_length.
    write_u16be ctx instruction_length w >>= λ w. ctx.write_bytes glyph.instructions w >>= λ w.
    write_vec write_flag ctx glyph.flags w >>= λ w.
    write_deltas ctx (λ p. p.x) (pos 0) glyph.coordinates w
    >>= write_deltas ctx (λ p. p.y) (pos 0) glyph.coordinates

unfoldable pub write_simple_glyph : WriteBinary SimpleGlyph
unfolding write_outline
write_simple_glyph ctx glyph w =
    if length glyph.flags == length glyph.coordinates then write_outline ctx glyph w else panic

unfoldable pub write_argument : WriteBinary CompositeGlyphArgument
write_argument ctx (u8 val) = write_u8 ctx val
write_argument ctx (i8 val) = write_i8 ctx val
write_argument ctx (u16 val) = write_u16be ctx val
write_argument ctx (i16 val) = write_i16be ctx val

unfoldable pub write_scale : WriteBinary CompositeGlyphScale
write_scale ctx (scale a) w = write_u16be ctx a w
write_scale ctx (xy x y) w = write_u16be ctx x w >>= write_u16be ctx y
write_scale ctx (matrix a b c d) w = write_u16be ctx a w >>= λ w.
    write_u16be ctx b w >>= λ w. write_u16be ctx c w >>= write_u16be ctx d

abbrev pub write_opt_scale : WriteBinary (Option CompositeGlyphScale)
write_opt_scale ctx none w = ok w
write_opt_scale ctx (some s) w = write_scale ctx s w

unfoldable pub write_composite_glyph : WriteBinary CompositeGlyph
unfolding write_argument write_scale
write_composite_glyph ctx glyph w = write_u16be ctx glyph.flags w >>= λ w.
    write_u16be ctx glyph.glyph_index w >>= λ w. write_argument ctx glyph.argument1 w >>= λ w.
    write_argument ctx glyph.argument2 w >>= write_opt_scale ctx glyph.scale

-- `has_instructions`, after the components
abbrev pub any_instructions : Bool → List CompositeGlyph → Bool
any_instructions has [] = has
any_instructions has (glyph ∷ glyphs) =
    any_instructions (has || CompositeGlyphFlag.we_have_instructions glyph.flags) glyphs

unfoldable pub write_glyph_data : WriteBinary GlyphData
unfolding write_simple_glyph write_composite_glyph
write_glyph_data ctx (simple glyph) w = write_simple_glyph ctx glyph w
write_glyph_data ctx (composite glyphs instructions) w =
    write_vec write_composite_glyph ctx glyphs w >>= λ w.
    if any_instructions false glyphs
    then (try_from (2 ^ 16) (length instructions) >>= λ instruction_length.
        write_u16be ctx instruction_length w >>= ctx.write_bytes instructions)
    else ok w

unfoldable pub write_glyph : WriteBinary Glyph
unfolding write_bounding_box write_glyph_data
write_glyph ctx glyph w = write_i16be ctx glyph.number_of_contours w >>= λ w.
    write_bounding_box ctx glyph.bounding_box w >>= write_glyph_data ctx glyph.glyph_data
