-- ===== src/Glyf/Table/Safety.antt =====
-- src/tables/glyf.rs, `GlyfTable::read_dep`: what reading the table can end in.
use allsorts.Base.{
  ℕ, suc, ◌+◌, ◌-◌, ◌*◌, ◌≡◌, refl, sym, ap, ◌∙◌, arith, ltb, leb, ◌==◌, List, [], ◌∷◌, length,
  drop, length-take, length-drop, All, All-take, All-drop, Bool-cases, inl, inr, length-map,
}
use allsorts.Binary.Scope.{ReadScope, offset, offset_length_lem, window}
use allsorts.Binary.Read.{ReadCtxt, IsByte, IsValid, new_ctxt, rest_scope}
use allsorts.Binary.Read.Safety.{Follows}
use allsorts.Binary.Read.Nested.{IsScope, offset-IsScope, rest_scope-IsScope}
use allsorts.Binary.Read.Values.{be_value}
use allsorts.Binary.Array.Items.{length-items}
use allsorts.Binary.Array.Laws.{IsArray}
use allsorts.Error.{Outcome, ok, err, panic, undefined, ParseError, Ends, Ends->>=, ◌>>=◌}
use allsorts.Glyf.{Glyph, GlyfRecord, GlyfTable}
use allsorts.Glyf.Read.{read_glyph}
use allsorts.Glyf.Safety.{IsGlyph, read_glyph-IsGlyph}
use allsorts.Glyf.Subset.{parse}
use allsorts.Glyf.Subset.Record.{IsRecord, value_of, scope_read_lem}
use allsorts.Glyf.Table.{record_between, read_glyf}
use allsorts.Glyf.Table.Between.{records_between, all_between, read_glyf_lem}
use allsorts.Loca.{LocaTable, LocaOffsets, offsets_len}
use allsorts.Loca.Offsets.{all_offsets-short, all_offsets-long}
use allsorts.Loca.Read.{all_offsets}

window-IsScope : (s : ReadScope) (o len : ℕ) → IsScope s → IsScope (window s o len)
window-IsScope s o len v = record {
  bounded = omega arith;
  fits = omega (arith, length-take len (drop o s.bytes), length-drop o s.bytes, v.fits);
  octets = All-take IsByte len _ (All-drop IsByte o s.bytes v.octets);
}

parsed_Ends :
    (c : ReadCtxt) (o : Outcome ParseError (Glyph × ReadCtxt))
    → Ends (λ r. Follows c r.1 × IsGlyph r.0) o
    → Ends IsRecord (value_of o >>= λ g. ok (GlyfRecord.parsed g))
parsed_Ends c (ok (g, d)) h = h.1
parsed_Ends c (err e) h = tt
parsed_Ends c panic h = h
parsed_Ends c undefined h = h

parse-Ends : (s : ReadScope) → IsScope s → Ends IsRecord (parse (GlyfRecord.present s))
unfolding parse
parse-Ends s v =
    rw (scope_read_lem read_glyph s (read_glyph (new_ctxt s)) refl)
      (parsed_Ends (new_ctxt s) (read_glyph (new_ctxt s)) (read_glyph-IsGlyph (new_ctxt s) v))

between_Ends :
    (s : ReadScope) (start end : ℕ) → IsScope s → Ends IsRecord (record_between s start end)
unfolding record_between
between_Ends s start end v = elim (Bool-cases (ltb end start)) [
  | inl below ↦ rw below tt
  | inr above ↦ elim (Bool-cases (end - start == 0)) [
    | inl none_there ↦ rw (above, none_there) tt
    | inr more ↦
        rw (above, more, offset_length_lem s start (end - start))
          (elim (Bool-cases (leb (start + (end - start)) (length s.bytes))) [
            | inl fits ↦ rw fits (window-IsScope s start (end - start) v)
            | inr short ↦ elim (Bool-cases (ltb start (length s.bytes))) [
              | inl inside ↦
                  rw (short, inside) (parse-Ends (offset s start) (offset-IsScope s start v))
              | inr outside ↦ rw (short, outside, more) tt
            ]
          ])
  ]
]

-- One record for each offset but the first
abbrev pub Records : List ℕ → List GlyfRecord → Type 0
Records ends records = (length records ≡ length ends) × All IsRecord records

records_between-Ends :
    (s : ReadScope) (start : ℕ) (ends : List ℕ)
    → IsScope s
    → Ends (Records ends) (records_between s start ends)
unfolding records_between
records_between-Ends s start [] v = (refl, tt)
records_between-Ends s start (end ∷ ends) v =
    Ends->>= (Records (end ∷ ends)) (record_between s start end) _ (between_Ends s start end v)
      (λ found h.
        Ends->>= (Records (end ∷ ends)) (records_between s end ends) _
          (records_between-Ends s end ends v) (λ rest hs. (ap suc hs.0, (h, hs.1))))

all_between-Ends :
    (s : ReadScope) (os : List ℕ)
    → IsScope s
    → Ends
        (λ records. (length records ≡ length (drop 1 os)) × All IsRecord records)
        (all_between s os)
all_between-Ends s [] v = (refl, tt)
all_between-Ends s (start ∷ ends) v = records_between-Ends s start ends v

-- The offsets lie in the font.
abbrev pub IsOffsets : LocaOffsets → Type 0
IsOffsets (LocaOffsets.short array) = IsArray 2 array
IsOffsets (LocaOffsets.long array) = IsArray 4 array

offsets_there :
    (offsets : LocaOffsets)
    → IsOffsets offsets
    → (os : List ℕ) × (all_offsets (record { offsets = offsets }) ≡ ok os)
      × (offsets_len offsets ≡ length os)
offsets_there (LocaOffsets.short array) h = (
  _,
  all_offsets-short array h,
  sym (length-map _ (λ x. x * 2) ∙ length-items 2 be_value array.length array.scope.bytes),
)
offsets_there (LocaOffsets.long array) h =
    (_, all_offsets-long array h, sym (length-items 4 be_value array.length array.scope.bytes))

-- One record for each offset but the last, each of which lies in the font or is parsed; the context
-- does not move.
abbrev pub IsRead : LocaTable → ReadCtxt → GlyfTable × ReadCtxt → Type 0
IsRead loca c r =
    (length r.0.records ≡ offsets_len loca.offsets - 1) × All IsRecord r.0.records × (r.1 ≡ c)

-- On every valid context, and with any table of offsets whose array lies in the font, in either
-- format, `read_glyf` ends in an error or in one record for each offset but the last, each of which
-- is empty, lies in the font, or is parsed and is as `read_glyph` gives it, as `subset` asks of it;
-- it neither panics nor reads out of bounds, and the context does not move.
pub read_glyf-Ends :
    (loca : LocaTable) (c : ReadCtxt)
    → IsOffsets loca.offsets
    → IsValid c
    → Ends (IsRead loca c) (read_glyf loca c)
read_glyf-Ends loca c h v =
    let (os, e, n) = offsets_there loca.offsets h in
    rw (read_glyf_lem loca os c e) (elim (Bool-cases (ltb (offsets_len loca.offsets) 2)) [
      | inl few ↦ rw few tt
      | inr enough ↦ rw enough (
          Ends->>= (IsRead loca c) (all_between (rest_scope c) os) _
            (all_between-Ends (rest_scope c) os (rest_scope-IsScope c v))
            (λ records k. (omega (arith, k.0, n, length-drop 1 os), k.1, refl)))
    ])
