-- ===== src/Gdef.antt =====
-- src/layout.rs and src/gdef.rs: the glyph definition table, `GDEFTable`, and the class that it gives
-- to a glyph.
pub mod Read
pub mod Classes
use allsorts.Base.{ℕ, ◌==◌, Bool, Option, none, some}
use allsorts.Error.{Outcome, ok, ParseError, ◌>>=◌}
use allsorts.Layout.ClassDef.{ClassDef, glyph_class_value}

pub record GdefTable : Type 0 where
  pub opt_glyph_classdef : Option ClassDef
  pub opt_mark_attach_classdef : Option ClassDef

abbrev pub class_or_zero : Option ClassDef → ℕ → Outcome ParseError ℕ
class_or_zero none glyph = ok 0
class_or_zero (some classdef) glyph = glyph_class_value classdef glyph

unfoldable pub glyph_class : Option GdefTable → ℕ → Outcome ParseError ℕ
glyph_class none glyph = ok 0
glyph_class (some gdef_table) glyph = class_or_zero gdef_table.opt_glyph_classdef glyph

unfoldable pub mark_attach_class : Option GdefTable → ℕ → Outcome ParseError ℕ
mark_attach_class none glyph = ok 0
mark_attach_class (some gdef_table) glyph = class_or_zero gdef_table.opt_mark_attach_classdef glyph

unfoldable pub gdef_is_mark : Option GdefTable → ℕ → Outcome ParseError Bool
unfolding glyph_class
gdef_is_mark opt_gdef_table glyph_index =
    glyph_class opt_gdef_table glyph_index >>= λ class. ok (class == 3)
