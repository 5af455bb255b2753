-- ===== src/Gdef/Classes.antt =====
-- The class of a glyph as a total function of the table.
use allsorts.Base.{
  ℕ, ◌-◌, ◌≡◌, refl, Option, none, some, get_elem?, leb, if◌then◌else◌, Bool-cases, inl, inr,
}
use allsorts.Error.{ok}
use allsorts.Layout.ClassDef.{ClassDef, format1, format2, class_of_ranges, glyph_class_value}
use allsorts.Layout.ClassDef.Lookup.{array_class, or_zero}
use allsorts.Gdef.{GdefTable, class_or_zero, glyph_class, mark_attach_class}

-- The class of a glyph in a class definition: 0 outside its array or its ranges.
abbrev pub class_of : ClassDef → ℕ → ℕ
class_of (format1 start values) glyph =
    if leb start glyph then or_zero (get_elem? values (glyph - start)) else 0
class_of (format2 ranges) glyph = class_of_ranges ranges glyph

pub glyph_class_value-class_of : (d : ClassDef) (g : ℕ) → glyph_class_value d g ≡ ok (class_of d g)
unfolding glyph_class_value
glyph_class_value-class_of (format1 start values) g = elim (Bool-cases (leb start g)) [
  | inl above ↦ rw above (array_class values (g - start))
  | inr below ↦ rw below refl
]
glyph_class_value-class_of (format2 ranges) g = refl

abbrev opt_class_of : Option ClassDef → ℕ → ℕ
opt_class_of none g = 0
opt_class_of (some d) g = class_of d g

abbrev pub class_in : Option GdefTable → ℕ → ℕ
class_in none g = 0
class_in (some t) g = opt_class_of t.opt_glyph_classdef g

abbrev pub mark_class_in : Option GdefTable → ℕ → ℕ
mark_class_in none g = 0
mark_class_in (some t) g = opt_class_of t.opt_mark_attach_classdef g

class_or_zero_lem : (o : Option ClassDef) (g : ℕ) → class_or_zero o g ≡ ok (opt_class_of o g)
class_or_zero_lem none g = refl
class_or_zero_lem (some d) g = glyph_class_value-class_of d g

pub glyph_class_lem : (t : Option GdefTable) (g : ℕ) → glyph_class t g ≡ ok (class_in t g)
unfolding glyph_class
glyph_class_lem none g = refl
glyph_class_lem (some t) g = class_or_zero_lem t.opt_glyph_classdef g

pub mark_attach_class_lem :
    (t : Option GdefTable) (g : ℕ) → mark_attach_class t g ≡ ok (mark_class_in t g)
unfolding mark_attach_class
mark_attach_class_lem none g = refl
mark_attach_class_lem (some t) g = class_or_zero_lem t.opt_mark_attach_classdef g
