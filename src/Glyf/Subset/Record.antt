-- ===== src/Glyf/Subset/Record.antt =====
-- src/tables/glyf.rs, `GlyfTable::subset`: what a round of the loop makes of a record.
use allsorts.Base.{
  ℕ, subst, ◌≤◌, ◌≡◌, refl, ap, ◌∙◌, arith, true, false, List, length, Bool-cases, inl, inr,
}
use allsorts.Base.Int.{ℤ, pos, negsuc}
use allsorts.Binary.Scope.{ReadScope}
use allsorts.Binary.Read.{Reader, resume, ReadCtxt, new_ctxt, scope_read, read_i16be}
use allsorts.Binary.Read.Safety.{Follows}
use allsorts.Binary.Read.Nested.{IsScope}
use allsorts.Error.{Outcome, ok, err, panic, undefined, ParseError, Ends, ◌>>=◌}
use allsorts.Glyf.{
  CompositeGlyph, GlyphData, simple, composite, Glyph, GlyfRecord, empty, present, parsed,
}
use allsorts.Glyf.Read.{read_glyph, read_after_count}
use allsorts.Glyf.Safety.{IsGlyph, WithCount, Fitting, IsCount, IsCount-Gives, after_count-Gives}
use allsorts.Glyf.Subset.{
  number_of_contours, is_negative, is_composite, parse, add_components, add_to, add_glyph,
  subset_record,
}
use allsorts.Glyf.Subset.Places.{
  Extends, total, AllRenamed, AllRenamed-Extends, add_components-Added,
}

-- The record of the subset that a record of the table becomes: itself, or the composite glyph that it
-- parses into with its components named anew.
pub data Subsetted (all : List ℕ) (source target : GlyfRecord) : Type 0 where
  kept : is_composite source ≡ ok false → target ≡ source → Subsetted all source target
  renamed :
      (g : Glyph) (glyphs glyphs' : List CompositeGlyph) (instructions : List ℕ)
      → parse source ≡ ok (parsed g)
      → g.glyph_data ≡ composite glyphs instructions
      → target ≡ parsed (record g { glyph_data = composite glyphs' instructions })
      → AllRenamed all glyphs glyphs'
      → Subsetted all source target

pub Subsetted-Extends :
    {ids all : List ℕ} {r r' : GlyfRecord}
    → Extends ids all
    → Subsetted ids r r'
    → Subsetted all r r'
Subsetted-Extends h (kept e f) = kept e f
Subsetted-Extends {ids} {all} h (renamed g glyphs glyphs' instructions e f k s) =
    renamed g glyphs glyphs' instructions e f k (AllRenamed-Extends ids all glyphs glyphs' h s)

-- A record whose bytes lie in the font, or whose glyph is as `read_glyph` gives it.
abbrev pub IsRecord : GlyfRecord → Type 0
IsRecord empty = Unit {0}
IsRecord (present scope) = IsScope scope
IsRecord (parsed g) = IsGlyph g

-- What a round of the loop makes
abbrev pub Made : GlyfRecord → List ℕ → List ℕ × GlyfRecord → Type 0
Made r ids (ids', r') =
    Extends ids ids' × Subsetted ids' r r' × (total ids' ≡ total ids) × (length ids ≤ length ids')

module _ (r : GlyfRecord) (ids : List ℕ) where
  kept_Made : is_composite r ≡ ok false → Made r ids (ids, r)
  kept_Made e = ((λ i x f. f), kept e refl, refl, omega arith)

  add_to-Made :
      (g : Glyph) (n : ℤ) (d : GlyphData)
      → g.glyph_data ≡ d
      → parse r ≡ ok (parsed g)
      → is_negative n ≡ true
      → Fitting n d
      → Ends (Made r ids) (add_to g d ids)
  unfolding add_to
  add_to-Made g (pos n) d e p neg h = absurd (cc)
  add_to-Made g (negsuc n) (simple s) e p neg h = absurd h
  add_to-Made g (negsuc n) (composite glyphs instructions) e p neg h =
      let a = add_components-Added glyphs ids h in
      let added = add_components glyphs ids in
      (a.0, renamed g glyphs added.1 instructions p e refl a.1, a.2, a.3)

parsed_Made :
    (g : Glyph) (ids : List ℕ)
    → IsGlyph g
    → Ends (Made (parsed g) ids) (subset_record (parsed g) ids)
unfolding subset_record
parsed_Made g ids h = elim (Bool-cases (is_negative g.number_of_contours)) [
  | inl neg ↦
      rw neg (add_to-Made (parsed g) ids g g.number_of_contours g.glyph_data refl refl neg h)
  | inr keep ↦ rw keep (kept_Made (parsed g) ids (ap ok keep))
]

-- What is read, without the context that is left
abbrev pub value_of : {A : Type 0} → Outcome ParseError (A × ReadCtxt) → Outcome ParseError A
value_of (ok (a, c)) = ok a
value_of (err e) = err e
value_of panic = panic
value_of undefined = undefined

pub scope_read_lem :
    {A : Type 0} (m : Reader A) (s : ReadScope) (o : Outcome ParseError (A × ReadCtxt))
    → m (new_ctxt s) ≡ o
    → scope_read m s ≡ value_of o
scope_read_lem m s (ok (a, c)) e = rw (scope_read, e) refl
scope_read_lem m s (err x) e = rw (scope_read, e) refl
scope_read_lem m s panic e = rw (scope_read, e) refl
scope_read_lem m s undefined e = rw (scope_read, e) refl

module _ (s : ReadScope) (ids : List ℕ) where
  abbrev Parsed : Outcome ParseError (Glyph × ReadCtxt) → Type 0
  Parsed o = parse (present s) ≡ (value_of o >>= λ g. ok (parsed g))

  parse_lem :
      (n : ℤ) (c : ReadCtxt) (o : Outcome ParseError (Glyph × ReadCtxt))
      → read_i16be (new_ctxt s) ≡ ok (n, c)
      → read_after_count n c ≡ o
      → Parsed o
  unfolding parse read_glyph
  parse_lem n c o e f =
      ap (λ o. o >>= λ g. ok (parsed g))
        (scope_read_lem read_glyph s o (ap (resume read_after_count) e ∙ f))

  -- Behind the count, which is negative
  after_Made :
      (n : ℤ) (c : ReadCtxt) (o : Outcome ParseError (Glyph × ReadCtxt))
      → Parsed o
      → is_negative n ≡ true
      → Ends (λ r. Follows c r.1 × WithCount n r.0) o
      → Ends (Made (present s) ids) (parse (present s) >>= λ r. add_glyph r ids)
  unfolding add_glyph
  after_Made n c (ok (g, d)) p neg h = rw p (
      add_to-Made (present s) ids g n g.glyph_data refl p neg
        (subst (λ m. Fitting m g.glyph_data) h.1.0 h.1.1))
  after_Made n c (err x) p neg h = rw p tt
  after_Made n c panic p neg h = absurd h
  after_Made n c undefined p neg h = absurd h

  counted_Made :
      (o : Outcome ParseError (ℤ × ReadCtxt))
      → read_i16be (new_ctxt s) ≡ o
      → Ends (λ r. Follows (new_ctxt s) r.1 × IsCount r.0) o
      → Ends (Made (present s) ids) (subset_record (present s) ids)
  unfolding subset_record is_composite number_of_contours
  counted_Made (ok (n, c)) e h =
      rw (scope_read_lem read_i16be s (ok (n, c)) e) (elim (Bool-cases (is_negative n)) [
        | inl neg ↦ rw neg (
            after_Made n c (read_after_count n c) (parse_lem n c (read_after_count n c) e refl) neg
              (after_count-Gives n h.1 c h.0.valid))
        | inr keep ↦ rw keep (
            kept_Made (present s) ids (
              ap (λ o. o >>= λ n. ok (is_negative n)) (scope_read_lem read_i16be s (ok (n, c)) e)
              ∙ ap ok keep))
      ])
  counted_Made (err x) e h = rw (scope_read_lem read_i16be s (err x) e) tt
  counted_Made panic e h = absurd h
  counted_Made undefined e h = absurd h

pub record_Made :
    (r : GlyfRecord) (ids : List ℕ) → IsRecord r → Ends (Made r ids) (subset_record r ids)
unfolding is_composite subset_record
record_Made empty ids h = kept_Made empty ids refl
record_Made (present s) ids h =
    counted_Made s ids (read_i16be (new_ctxt s)) refl (IsCount-Gives (new_ctxt s) h)
record_Made (parsed g) ids h = parsed_Made g ids h
