-- ===== src/Binary/Array.antt =====
-- src/binary/read.rs: arrays that are read in place.
pub mod Items
pub mod Find
pub mod Gives
pub mod Laws
use allsorts.Base.{ℕ, zero, suc, ◌+◌, ◌-◌, List, [], ◌∷◌, Option, none, some}
use allsorts.Base.{ltb, if◌then◌else◌}
use allsorts.Binary.Scope.{new_scope, offset, offset_length, usize_mul}
use allsorts.Binary.Read.{ReadCtxt, new_ctxt}
use allsorts.Binary.Unchecked.{ReadUnchecked, ReadArray, read}
use allsorts.Error.{Outcome, ok, err, panic, ParseError, bad_index, unwrap, ◌>>=◌}

pub record ReadArrayIter : Type 0 where
  pub ctxt : ReadCtxt
  pub length : ℕ

-- `ReadArray::empty`
abbrev pub empty : ReadArray
empty = record { scope = new_scope []; length = 0 }

-- `CheckIndex::check_index` of an array of this length
unfoldable pub check_index : ℕ → ℕ → Outcome ParseError (Unit {0})
check_index len index = if ltb index len then ok tt else err bad_index

module _ {A : Type 0} (t : ReadUnchecked A) where
  unfoldable pub read_item : ReadArray → ℕ → Outcome ParseError A
  read_item array index =
      if ltb index array.length
      then (do
        scope ← unwrap (offset_length array.scope (usize_mul index t.size) t.size)
        (a, _) ← read t (new_ctxt scope)
        ok a)
      else panic

  unfoldable pub get_item : ReadArray → ℕ → Outcome ParseError A
  get_item array index =
      if ltb index array.length
      then (do
        scope ← unwrap (offset_length array.scope (usize_mul index t.size) t.size)
        (a, _) ← t.read_unchecked (new_ctxt scope)
        ok a)
      else panic

  unfoldable pub subarray : ReadArray → ℕ → ReadArray
  subarray array index =
      if ltb index array.length
      then record {
        scope = offset array.scope (usize_mul index t.size);
        length = array.length - index;
      }
      else empty

  abbrev pub iter : ReadArray → ReadArrayIter
  iter array = record { ctxt = new_ctxt array.scope; length = array.length }

  -- `Iterator::next`
  unfoldable pub next : ReadArrayIter → Outcome ParseError (Option A × ReadArrayIter)
  next it =
      if ltb 0 it.length
      then (do
        (a, c) ← t.read_unchecked it.ctxt
        ok (some a, record { ctxt = c; length = it.length - 1 }))
      else ok (none, it)

  -- A `for` loop over the iterator, on fuel: each round but the last takes an item.
  unfoldable pub collect : ℕ → ReadArrayIter → Outcome ParseError (List A)
  collect zero it = panic
  collect (suc fuel) it = next it >>= λ r. elim r.0 [
    | none ↦ ok []
    | some a ↦ collect fuel r.1 >>= λ rest. ok (a ∷ rest)
  ]

  unfoldable pub to_vec : ReadArray → Outcome ParseError (List A)
  unfolding collect next
  to_vec array = collect (suc array.length) (iter array)

  -- The loop over `iter_res`, which reads each item by its index, from `index` on.
  unfoldable pub read_items : ReadArray → ℕ → ℕ → Outcome ParseError (List A)
  read_items array zero index = ok []
  read_items array (suc left) index =
      read_item array index >>= λ a. read_items array left (index + 1) >>= λ rest. ok (a ∷ rest)

  unfoldable pub read_to_vec : ReadArray → Outcome ParseError (List A)
  read_to_vec array = read_items array array.length 0
