-- ===== src/Glyf/Table/Between.antt =====
-- src/tables/glyf.rs, `GlyfTable::read_dep`: the loop over the iterator against the list of the
-- offsets.
use allsorts.Base.{
  ℕ, zero, suc, ◌≡◌, refl, sym, ltb, List, [], ◌∷◌, Option, none, some, Bool-cases, inl, inr,
  if◌then◌else◌,
}
use allsorts.Binary.Scope.{ReadScope}
use allsorts.Binary.Read.{ReadCtxt, rest_scope}
use allsorts.Error.{Outcome, ok, err, panic, undefined, ParseError, bad_index, ◌>>=◌}
use allsorts.Glyf.{GlyfRecord, GlyfTable}
use allsorts.Glyf.Table.{record_between, read_records, read_glyf}
use allsorts.Loca.{LocaTable, LocaOffsetsIter, offsets_len}
use allsorts.Loca.Read.{next, collect, all_offsets}

-- The records between the offsets of a list
unfoldable pub records_between : ReadScope → ℕ → List ℕ → Outcome ParseError (List GlyfRecord)
records_between scope start [] = ok []
records_between scope start (end ∷ ends) = record_between scope start end >>= λ found.
    records_between scope end ends >>= λ rest. ok (found ∷ rest)

pub ok_eq : {E A : Type 0} {a b : A} → ◌≡◌ {A = Outcome E A} (ok a) (ok b) → a ≡ b
ok_eq e = cc e

module _ (scope : ReadScope) where
  abbrev Reads : ℕ → List ℕ → ℕ → LocaOffsetsIter → Type 0
  Reads fuel os start it = read_records fuel scope start it ≡ records_between scope start os

  abbrev AllRead : ℕ → Type 0
  AllRead fuel =
      (start : ℕ) (it : LocaOffsetsIter) (os : List ℕ)
      → collect fuel it ≡ ok os
      → Reads fuel os start it

  rest_lem :
      (fuel start end : ℕ) (it : LocaOffsetsIter) (os : List ℕ) (o : Outcome ParseError (List ℕ))
      → AllRead fuel
      → collect fuel it ≡ o
      → (o >>= λ rest. ok (end ∷ rest)) ≡ ok os
      → (record_between scope start end >>= λ found.
          read_records fuel scope end it >>= λ rest. ok (found ∷ rest))
        ≡ records_between scope start os
  unfolding records_between
  rest_lem fuel start end it os (ok rest) ih c e = rw (ih end it rest c, sym (ok_eq e)) refl
  rest_lem fuel start end it os (err x) ih c e = absurd (cc e)
  rest_lem fuel start end it os panic ih c e = absurd (cc e)
  rest_lem fuel start end it os undefined ih c e = absurd (cc e)

  next_lem :
      (fuel start : ℕ) (it : LocaOffsetsIter) (os : List ℕ)
      (o : Outcome ParseError (Option ℕ × LocaOffsetsIter))
      → AllRead fuel
      → next it ≡ o
      → collect (suc fuel) it ≡ ok os
      → Reads (suc fuel) os start it
  unfolding collect read_records records_between
  next_lem fuel start it os (ok (none, it')) ih n e = rw (n, sym (ok_eq (rw n at e))) refl
  next_lem fuel start it os (ok (some end, it')) ih n e =
      rw n (rest_lem fuel start end it' os (collect fuel it') ih refl (rw n at e))
  next_lem fuel start it os (err x) ih n e = absurd (cc (rw n at e))
  next_lem fuel start it os panic ih n e = absurd (cc (rw n at e))
  next_lem fuel start it os undefined ih n e = absurd (cc (rw n at e))

  pub read_records_lem : (fuel : ℕ) → AllRead fuel
  unfolding collect
  read_records_lem zero start it os e = absurd (cc e)
  read_records_lem (suc fuel) start it os e =
      next_lem fuel start it os (next it) (read_records_lem fuel) refl e

-- The records between the offsets of a list, from its first on
abbrev pub all_between : ReadScope → List ℕ → Outcome ParseError (List GlyfRecord)
all_between scope [] = ok []
all_between scope (start ∷ ends) = records_between scope start ends

module _ (loca : LocaTable) (os : List ℕ) (c : ReadCtxt) where
  abbrev start_of : LocaOffsetsIter
  start_of = record { offsets = loca.offsets; index = 0 }

  abbrev table_of : Outcome ParseError (List GlyfRecord) → Outcome ParseError (GlyfTable × ReadCtxt)
  table_of o = o >>= λ records. ok (record { records = records }, c)

  abbrev Behind : Outcome ParseError (Option ℕ × LocaOffsetsIter) → Type 0
  Behind o =
      (o >>= λ first. elim first.0 [
        | none ↦ ok (record { records = [] }, c)
        | some start ↦
            table_of (read_records (offsets_len loca.offsets) (rest_scope c) start first.1)
      ])
      ≡ table_of (all_between (rest_scope c) os)

  rest_read :
      (start : ℕ) (it : LocaOffsetsIter) (o : Outcome ParseError (List ℕ))
      → collect (offsets_len loca.offsets) it ≡ o
      → (o >>= λ rest. ok (start ∷ rest)) ≡ ok os
      → Behind (ok (some start, it))
  rest_read start it (ok rest) e f =
      rw (read_records_lem (rest_scope c) (offsets_len loca.offsets) start it rest e, sym (ok_eq f))
        refl
  rest_read start it (err x) e f = absurd (cc f)
  rest_read start it panic e f = absurd (cc f)
  rest_read start it undefined e f = absurd (cc f)

  first_read :
      (o : Outcome ParseError (Option ℕ × LocaOffsetsIter))
      → next start_of ≡ o
      → collect (suc (offsets_len loca.offsets)) start_of ≡ ok os
      → Behind o
  unfolding collect
  first_read (ok (none, it)) n e = rw (sym (ok_eq (rw n at e))) refl
  first_read (ok (some start, it)) n e =
      rest_read start it (collect (offsets_len loca.offsets) it) refl (rw n at e)
  first_read (err x) n e = absurd (cc (rw n at e))
  first_read panic n e = absurd (cc (rw n at e))
  first_read undefined n e = absurd (cc (rw n at e))

  pub read_glyf_lem :
      all_offsets loca ≡ ok os
      → read_glyf loca c ≡ (
          if ltb (offsets_len loca.offsets) 2
          then err bad_index
          else table_of (all_between (rest_scope c) os))
  unfolding read_glyf all_offsets
  read_glyf_lem e = elim (Bool-cases (ltb (offsets_len loca.offsets) 2)) [
    | inl few ↦ rw few refl
    | inr enough ↦ rw enough (first_read (next start_of) refl e)
  ]
