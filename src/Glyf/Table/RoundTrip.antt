-- ===== src/Glyf/Table/RoundTrip.antt =====
-- src/tables/glyf.rs and src/tables/loca.rs: a table of glyphs and the table of its offsets, written
-- and read back.
use allsorts.Base.{
  ℕ, zero, suc, ◌+◌, ◌≤◌, ◌<◌, ◌^◌, ◌≡◌, refl, ap, ◌∙◌, arith, ltb, ltb→lt, false, List, [], ◌∷◌,
  ◌++◌, Option, none, some, length, length-append, All, Bool-cases, inl, inr,
}
use allsorts.Binary.Scope.{offset_lem}
use allsorts.Binary.Read.{ReadCtxt, IsValid, rest_scope, remaining, advance}
use allsorts.Binary.Write.{WriteBuffer, buffer_context, new_buffer}
use allsorts.Binary.Write.Count.{concat}
use allsorts.Error.{Outcome, ok, err, panic, undefined, ParseError, ◌>>=◌}
use allsorts.Glyf.{GlyfRecord}
use allsorts.Glyf.Table.{read_glyf, write_glyf}
use allsorts.Glyf.Table.Between.{ok_eq, read_glyf_lem}
use allsorts.Glyf.Table.Placed.{all_placed, all_between_lem}
use allsorts.Glyf.Table.Stored.{IsStored, stored, offsets_of, write_records_lem}
use allsorts.Loca.{IndexToLocFormat, LocaTable, LocaOffsetsIter, offsets_len}
use allsorts.Loca.Read.{read_loca, next, collect, all_offsets, offset_at}
use allsorts.Loca.Write.{write_offsets}
use allsorts.Loca.Offsets.{read_loca-write_offsets}

module _ (format : IndexToLocFormat) where
  length-offsets_of :
      (at : ℕ) (rs : List GlyfRecord) → length (offsets_of format at rs) ≡ length rs + 1
  length-offsets_of at [] = refl
  length-offsets_of at (r ∷ rs) =
      omega (arith, length-offsets_of (at + length (stored format r)) rs)

  offsets_of-bounded :
      (at : ℕ) (rs : List GlyfRecord)
      → at + length (concat (stored format) rs) < 2 ^ 32
      → All (λ o. o < 2 ^ 32) (offsets_of format at rs)
  offsets_of-bounded at [] h = (omega arith, tt)
  offsets_of-bounded at (r ∷ rs) h =
      let n = length-append (stored format r) (concat (stored format) rs) in
      (omega arith, offsets_of-bounded (at + length (stored format r)) rs (omega (arith, h, n)))

-- The iterator gives as many offsets as are left.
abbrev CountsLeft : ℕ → Type 0
CountsLeft fuel =
    (it : LocaOffsetsIter) (os : List ℕ)
    → it.index ≤ offsets_len it.offsets
    → collect fuel it ≡ ok os
    → length os + it.index ≡ offsets_len it.offsets

module _ (fuel : ℕ) (ih : CountsLeft fuel) (it : LocaOffsetsIter) (os : List ℕ)
    (more : it.index < offsets_len it.offsets) where
  abbrev after : LocaOffsetsIter
  after = record it { index = it.index + 1 }

  rest_counted :
      (a : ℕ) (o : Outcome ParseError (List ℕ))
      → collect fuel after ≡ o
      → (o >>= λ rest. ok (a ∷ rest)) ≡ ok os
      → length os + it.index ≡ offsets_len it.offsets
  rest_counted a (ok rest) c e =
      omega (arith, ih after rest (omega (arith, more)) c, ap length (ok_eq e))
  rest_counted a (err x) c e = absurd (cc e)
  rest_counted a panic c e = absurd (cc e)
  rest_counted a undefined c e = absurd (cc e)

  abbrev item : Outcome ParseError ℕ → Outcome ParseError (Option ℕ × LocaOffsetsIter)
  item o = o >>= λ a. ok (some a, after)

  abbrev collected : Outcome ParseError (Option ℕ × LocaOffsetsIter) → Outcome ParseError (List ℕ)
  collected o =
      o >>= λ r. elim r.0 [ none ↦ ok [] | some a ↦ collect fuel r.1 >>= λ rest. ok (a ∷ rest) ]

  first_counted :
      (o : Outcome ParseError ℕ)
      → collected (item o) ≡ ok os
      → length os + it.index ≡ offsets_len it.offsets
  first_counted (ok a) e = rest_counted a (collect fuel after) refl e
  first_counted (err x) e = absurd (cc e)
  first_counted panic e = absurd (cc e)
  first_counted undefined e = absurd (cc e)

all_counted : (fuel : ℕ) → CountsLeft fuel
unfolding collect next
all_counted zero it os le e = absurd (cc e)
all_counted (suc fuel) it os le e = elim (Bool-cases (ltb it.index (offsets_len it.offsets))) [
  | inl more ↦
      first_counted fuel (all_counted fuel) it os (ltb→lt it.index _ more)
        (offset_at it.offsets it.index) (rw more at e)
  | inr end ↦ ground (arith, ap length (ok_eq (rw end at e)), end, le)
]

loca_len :
    (loca : LocaTable) (os : List ℕ)
    → all_offsets loca ≡ ok os
    → offsets_len loca.offsets ≡ length os
unfolding all_offsets
loca_len loca os e = omega (
  arith,
  all_counted (suc (offsets_len loca.offsets)) (record { offsets = loca.offsets; index = 0 }) os
      (omega arith) e,
)

-- The bytes of the records, one behind the other
abbrev pub table_bytes : IndexToLocFormat → List GlyfRecord → List ℕ
table_bytes format rs = concat (stored format) rs

read_back :
    (format : IndexToLocFormat) (rs : List GlyfRecord) (loca : LocaTable) (c : ReadCtxt)
    (rest : List ℕ)
    → All IsStored rs
    → 0 < length rs
    → all_offsets loca ≡ ok (offsets_of format 0 rs)
    → remaining c ≡ table_bytes format rs ++ rest
    → read_glyf loca c ≡ ok (record { records = all_placed format (rest_scope c) 0 rs }, c)
read_back format rs loca c rest h some_there e there =
    let enough : ltb (offsets_len loca.offsets) 2 ≡ false =
      ground (arith, loca_len loca (offsets_of format 0 rs) e, length-offsets_of format 0 rs) in
    rw
      (
        read_glyf_lem loca (offsets_of format 0 rs) c e,
        enough,
        all_between_lem format (rest_scope c) 0 rs h
            ([], rest, refl, offset_lem c.scope c.offset ∙ there),
      )
      refl

-- For a list of fewer than 2 ^ 16 records, at least one, that are empty or have bytes of the font,
-- fewer than 2 ^ 32 bytes in all: `write_glyf` appends their bytes in either format, each record
-- rounded up to an even length in the short one, and gives the offsets of the records and of the
-- end; where `write_offsets` has written these offsets, `read_loca` on a valid context that begins
-- with its bytes gives a table, and `read_glyf` with that table, on a context that begins with the
-- bytes of the records, gives the records in order, each with its bytes as they are stored.
pub read_glyf-write_glyf :
    (format : IndexToLocFormat) (rs : List GlyfRecord) (w loca_buffer : WriteBuffer)
    (c d : ReadCtxt) (rest loca_rest : List ℕ)
    → All IsStored rs
    → 0 < length rs
    → length rs < 2 ^ 16
    → length (table_bytes format rs) < 2 ^ 32
    → write_offsets buffer_context (offsets_of format 0 rs) format new_buffer ≡ ok loca_buffer
    → remaining c ≡ table_bytes format rs ++ rest
    → IsValid d
    → remaining d ≡ loca_buffer.bytes ++ loca_rest
    → (write_glyf buffer_context (record { records = rs }) format w
        ≡ ok (offsets_of format 0 rs, record { bytes = w.bytes ++ table_bytes format rs }))
      × ((loca : LocaTable) × (read_loca (length rs) format d
            ≡ ok (loca, advance d (length loca_buffer.bytes)))
          × (read_glyf loca c ≡ ok (record { records = all_placed format (rest_scope c) 0 rs }, c)))
unfolding write_glyf
read_glyf-write_glyf format rs w lw c d rest loca_rest h some_there few small e there v loca_there =
    let (loca, read, offsets) =
      read_loca-write_offsets format (length rs) (offsets_of format 0 rs) lw d loca_rest e
        (length-offsets_of format 0 rs) few (offsets_of-bounded format 0 rs (omega (arith, small)))
        v loca_there in
    (
      write_records_lem format (length w.bytes) rs w 0 h (omega arith) (omega (arith, small)),
      (loca, read, read_back format rs loca c rest h some_there offsets there),
    )
