-- ===== src/Gdef/Read.antt =====
-- src/layout.rs: reading the glyph definition table.
use allsorts.Base.{ℕ, ◌==◌, ltb, if◌then◌else◌, Option, none, some, Bool-cases, inl, inr}
use allsorts.Binary.Scope.{ReadScope, offset}
use allsorts.Binary.Read.{
  ReadCtxt, Reader, IsValid, pure, lift, check, ◌>>=◌, ◌>>◌, read_u16be, rest_scope, scope_read,
}
use allsorts.Binary.Read.Values.{be_value}
use allsorts.Binary.Read.Fixed.{read_u16be-Fixed}
use allsorts.Binary.Read.Safety.{
  Follows, IsSafe, IsSafe->>=, IsSafe-pure, IsSafe-check, Fixed-IsSafe,
}
use allsorts.Binary.Read.Nested.{IsScope, IsSafe-scope_read, offset-IsScope, rest_scope-IsScope}
use allsorts.Error.{Ends}
use allsorts.Layout.ClassDef.{ClassDef, read_class_def}
use allsorts.Layout.ClassDef.RoundTrip.{read_class_def-Ends}
use allsorts.Gdef.{GdefTable}

abbrev pub gdef_header_size : ℕ
gdef_header_size = 12

-- A class definition at an offset of the table, absent where the offset is zero or points into the
-- header.
unfoldable pub read_opt_classdef : ReadScope → ℕ → Reader (Option ClassDef)
read_opt_classdef table classdef_offset =
    if classdef_offset == 0
    then pure none
    else if ltb classdef_offset gdef_header_size
    then pure none
    else (do
      classdef ← lift (scope_read read_class_def (offset table classdef_offset))
      pure (some classdef))

-- What follows the header.
unfoldable pub read_classdefs : ReadScope → ℕ → ℕ → Reader GdefTable
unfolding read_opt_classdef
read_classdefs table glyph_classdef_offset mark_attach_classdef_offset = do
  opt_glyph_classdef ← read_opt_classdef table glyph_classdef_offset
  opt_mark_attach_classdef ← read_opt_classdef table mark_attach_classdef_offset
  pure (record {
    opt_glyph_classdef = opt_glyph_classdef;
    opt_mark_attach_classdef = opt_mark_attach_classdef;
  })

unfoldable pub read_gdef : Reader GdefTable
unfolding read_classdefs
read_gdef c =
    let table = rest_scope c in
    (do
      major_version ← read_u16be
      check (major_version == 1)
      _ ← read_u16be
      glyph_classdef_offset ← read_u16be
      _ ← read_u16be
      _ ← read_u16be
      mark_attach_classdef_offset ← read_u16be
      read_classdefs table glyph_classdef_offset mark_attach_classdef_offset)
      c

opt_classdef-IsSafe : (s : ReadScope) (o : ℕ) → IsScope s → IsSafe (read_opt_classdef s o)
unfolding read_opt_classdef
opt_classdef-IsSafe s o v = elim (Bool-cases (o == 0)) [
  | inl a ↦ rw a (IsSafe-pure {A = Option ClassDef} none)
  | inr a ↦ rw a (elim (Bool-cases (ltb o gdef_header_size)) [
    | inl b ↦ rw b (IsSafe-pure {A = Option ClassDef} none)
    | inr b ↦ rw b (
        IsSafe->>= (lift (scope_read read_class_def (offset s o))) _
          (IsSafe-scope_read read_class_def (offset s o) read_class_def-Ends (offset-IsScope s o v))
          (λ d. IsSafe-pure (some d)))
  ])
]

classdefs-IsSafe : (s : ReadScope) (o p : ℕ) → IsScope s → IsSafe (read_classdefs s o p)
unfolding read_classdefs
classdefs-IsSafe s o p v = IsSafe->>= (read_opt_classdef s o) _ (opt_classdef-IsSafe s o v) (λ d.
    IsSafe->>= (read_opt_classdef s p) _ (opt_classdef-IsSafe s p v) (λ e.
      IsSafe-pure {A = GdefTable}
        (record { opt_glyph_classdef = d; opt_mark_attach_classdef = e })))

word-IsSafe : IsSafe read_u16be
word-IsSafe = Fixed-IsSafe read_u16be 2 be_value read_u16be-Fixed

-- On every valid context `read_gdef` ends in an error or in a table with a valid context in the
-- same scope, no further back, whatever the offsets of its header; it neither panics nor reads out
-- of bounds.
pub read_gdef-Ends : (c : ReadCtxt) → IsValid c → Ends (λ r. Follows c r.1) (read_gdef c)
unfolding read_gdef
read_gdef-Ends c v =
    IsSafe->>= read_u16be _ word-IsSafe
      (λ major. IsSafe->>= (check (major == 1)) _ (IsSafe-check (major == 1)) (λ u.
        IsSafe->>= read_u16be _ word-IsSafe (λ minor. IsSafe->>= read_u16be _ word-IsSafe (λ o.
          IsSafe->>= read_u16be _ word-IsSafe (λ a. IsSafe->>= read_u16be _ word-IsSafe (λ b.
            IsSafe->>= read_u16be _ word-IsSafe
              (λ p. classdefs-IsSafe (rest_scope c) o p (rest_scope-IsScope c v))))))))
      c v
