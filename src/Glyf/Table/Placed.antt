-- ===== src/Glyf/Table/Placed.antt =====
-- src/tables/glyf.rs: reading between offsets where records stand one behind the other.
use allsorts.Base.{
  ℕ, ◌+◌, ◌-◌, ◌≤◌, ◌<◌, ◌≡◌, refl, sym, ap, ◌∙◌, arith, ltb, ◌==◌, false, List, [], ◌∷◌, ◌++◌,
  length, length-append, take, take-append, drop, drop-append, All,
}
use allsorts.Binary.Scope.{ReadScope, offset_length-window, usize_add}
use allsorts.Error.{ok, ◌>>=◌}
use allsorts.Binary.Write.Count.{concat}
use allsorts.Glyf.{GlyfRecord, empty, present, parsed}
use allsorts.Glyf.Table.{record_between, present_or_parse}
use allsorts.Glyf.Table.Between.{records_between, all_between}
use allsorts.Glyf.Table.Stored.{IsStored, stored, padded, length-padded, offsets_of}
use allsorts.Loca.{IndexToLocFormat}
use mathlib.Core.List.{append_assoc}

module _ (format : IndexToLocFormat) (s : ReadScope) where
  -- The record as it is read at an offset of the table
  abbrev pub placed : ℕ → GlyfRecord → GlyfRecord
  placed at empty = empty
  placed at (present scope) =
      present (record { base = usize_add s.base at; bytes = padded format scope.bytes })
  placed at (parsed glyph) = parsed glyph

  abbrev pub all_placed : ℕ → List GlyfRecord → List GlyfRecord
  all_placed at [] = []
  all_placed at (r ∷ rs) = placed at r ∷ all_placed (at + length (stored format r)) rs

  -- The bytes at an offset
  abbrev StandsAt : ℕ → List ℕ → Type 0
  StandsAt at bs = (pre rest : List ℕ) × (length pre ≡ at) × (s.bytes ≡ pre ++ (bs ++ rest))

  present_between :
      (at : ℕ) (bs : List ℕ)
      → 0 < length bs
      → StandsAt at bs
      → record_between s at (at + length bs)
        ≡ ok (present (record { base = usize_add s.base at; bytes = bs }))
  unfolding record_between present_or_parse
  present_between at bs more (pre, rest, n, e) =
      let size : at + length bs - at ≡ length bs = omega arith in
      let above : ltb (at + length bs) at ≡ false = ground arith in
      let some_there : (length bs == 0) ≡ false = ground arith in
      let fits : at + length bs ≤ length s.bytes =
        omega (arith, n, ap length e, length-append pre (bs ++ rest), length-append bs rest) in
      let inside : take (length bs) (drop at s.bytes) ≡ bs =
        rw (e, sym n, drop-append pre (bs ++ rest), take-append bs rest) refl in
      rw (above, size, some_there, offset_length-window s at (length bs) fits, inside) refl

  length-padded_nil : (f : IndexToLocFormat) → length (padded f []) ≡ 0
  length-padded_nil IndexToLocFormat.short = refl
  length-padded_nil IndexToLocFormat.long = refl

  one_between :
      (at : ℕ) (r : GlyfRecord)
      → IsStored r
      → StandsAt at (stored format r)
      → record_between s at (at + length (stored format r)) ≡ ok (placed at r)
  unfolding record_between
  one_between at empty h st =
      let none_there = length-padded_nil format in
      let same : at + length (padded format []) ≡ at = omega (arith, none_there) in
      rw same (ground arith)
  one_between at (present scope) h st =
      present_between at (padded format scope.bytes)
        (omega (arith, length-padded format scope.bytes)) st
  one_between at (parsed glyph) h st = absurd h

  offsets-head :
      (at : ℕ) (rs : List GlyfRecord)
      → offsets_of format at rs ≡ at ∷ drop 1 (offsets_of format at rs)
  offsets-head at [] = refl
  offsets-head at (r ∷ rs) = refl

  pub all_between_lem :
      (at : ℕ) (rs : List GlyfRecord)
      → All IsStored rs
      → StandsAt at (concat (stored format) rs)
      → all_between s (offsets_of format at rs) ≡ ok (all_placed at rs)
  unfolding records_between
  all_between_lem at [] h st = refl
  all_between_lem at (r ∷ rs) (h, hs) (pre, rest, n, e) =
      let bs = stored format r in
      let more = concat (stored format) rs in
      let end = at + length bs in
      let head = offsets-head end rs in
      let one =
        one_between at r h
          (pre, more ++ rest, n, e ∙ ap (λ t. pre ++ t) (append_assoc bs more rest)) in
      let go = all_between_lem end rs hs (
        pre ++ bs,
        rest,
        omega (arith, n, length-append pre bs),
        e
            ∙ ap (λ t. pre ++ t) (append_assoc bs more rest)
            ∙ sym (append_assoc pre bs (more ++ rest)),
      ) in
      ap (records_between s at) head
      ∙ rw one
          (ap (λ o. o >>= λ rest. ok (placed at r ∷ rest)) (ap (all_between s) (sym head) ∙ go))
