-- ===== src/Gsub/Glyph.antt =====
-- src/gsub.rs: `RawGlyph`, the glyph that the shapers pass on, with the data of a script in it.
use allsorts.Base.{ℕ, Bool, List, Option}

-- src/unicode.rs
pub data VariationSelector : Type 0 where
  vs01 vs02 vs03 vs15 vs16 : VariationSelector

pub data GlyphOrigin : Type 0 where
  char : ℕ → GlyphOrigin
  direct : GlyphOrigin

pub record RawGlyph (T : Type 0) : Type 0 where
  pub unicodes : List ℕ
  pub glyph_index : ℕ
  pub liga_component_pos : ℕ
  pub glyph_origin : GlyphOrigin
  pub small_caps : Bool
  pub multi_subst_dup : Bool
  pub is_vert_alt : Bool
  pub fake_bold : Bool
  pub fake_italic : Bool
  pub variation : Option VariationSelector
  pub extra_data : T

-- The field by field copies of `From` between the glyphs of a script and plain ones.
abbrev pub with_data : {S T : Type 0} → T → RawGlyph S → RawGlyph T
with_data d g = record {
  unicodes = g.unicodes;
  glyph_index = g.glyph_index;
  liga_component_pos = g.liga_component_pos;
  glyph_origin = g.glyph_origin;
  small_caps = g.small_caps;
  multi_subst_dup = g.multi_subst_dup;
  is_vert_alt = g.is_vert_alt;
  fake_bold = g.fake_bold;
  fake_italic = g.fake_italic;
  variation = g.variation;
  extra_data = d;
}
