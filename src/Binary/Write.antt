-- ===== src/Binary/Write.antt =====
-- src/binary/write.rs: the contexts that values are written to, and the writers of the primitive
-- types. A method on `&mut C` takes the context and returns the new one; a call that fails returns
-- none.
pub mod Values
pub mod Fill
pub mod Count
pub mod Adds
pub mod RoundTrip
use allsorts.Base.{ℕ, zero, suc, ◌+◌, ◌-◌, ◌/◌, ◌%◌, ◌^◌, List, [], ◌∷◌, ◌++◌}
use allsorts.Base.{ltb, leb, if◌then◌else◌, length, take, drop, replicate, min}
use allsorts.Base.Int.{ℤ, pos, negsuc}
use allsorts.Binary.Scope.{ReadScope, usize_add}
use allsorts.Error.{Outcome, ok, err, panic, WriteError, ◌>>=◌}

-- `trait WriteContext`; `write_placeholder` is a function of its own for each context that has it.
pub record WriteContext : Type 1 where
  pub State : Type 0
  pub write_bytes : List ℕ → State → Outcome WriteError State
  pub write_zeros : ℕ → State → Outcome WriteError State
  pub bytes_written : State → ℕ

pub record WriteBuffer : Type 0 where
  pub bytes : List ℕ

pub record WriteSlice : Type 0 where
  pub offset : ℕ
  pub bytes : List ℕ

pub record WriteCounter : Type 0 where
  pub count : ℕ

abbrev pub new_buffer : WriteBuffer
new_buffer = record { bytes = [] }

abbrev pub new_counter : WriteCounter
new_counter = record { count = 0 }

abbrev pub buffer_context : WriteContext
buffer_context = record {
  State = WriteBuffer;
  write_bytes = λ bs w. ok (record { bytes = w.bytes ++ bs });
  write_zeros = λ count w. ok (record { bytes = w.bytes ++ replicate count 0 });
  bytes_written = λ w. length w.bytes;
}

-- `self.data[self.offset..][0..data_len].copy_from_slice(data)`: each of the two ranges panics
-- where it leaves the slice.
unfoldable pub write_slice_bytes : List ℕ → WriteSlice → Outcome WriteError WriteSlice
write_slice_bytes bs w =
    if leb (length bs) (length w.bytes)
    then (if leb (w.offset + length bs) (length w.bytes)
        then ok (record {
          offset = w.offset + length bs;
          bytes = take w.offset w.bytes ++ (bs ++ drop (w.offset + length bs) w.bytes);
        })
        else panic)
    else err WriteError.bad_value

-- `for i in 0..count.min(self.data.len()) { self.data[i] = 0 }`
unfoldable pub write_slice_zeros : ℕ → WriteSlice → Outcome WriteError WriteSlice
write_slice_zeros count w =
    let n = min count (length w.bytes) in ok (record w { bytes = replicate n 0 ++ drop n w.bytes })

abbrev pub slice_context : WriteContext
slice_context = record {
  State = WriteSlice;
  write_bytes = write_slice_bytes;
  write_zeros = write_slice_zeros;
  bytes_written = λ w. length w.bytes;
}

abbrev pub counter_context : WriteContext
counter_context = record {
  State = WriteCounter;
  write_bytes = λ bs w. ok (record { count = usize_add w.count (length bs) });
  write_zeros = λ count w. ok (record { count = usize_add w.count count });
  bytes_written = λ w. w.count;
}

-- `NullWriter` has no state.
abbrev pub null_context : WriteContext
null_context = record {
  State = Unit {0};
  write_bytes = λ bs w. ok w;
  write_zeros = λ count w. ok w;
  bytes_written = λ w. 0;
}

-- `trait WriteBinary<A>` with no output: a value is written to any context.
abbrev pub WriteBinary : Type 0 → Type 1
WriteBinary A = (ctx : WriteContext) → A → ctx.State → Outcome WriteError ctx.State

-- `x.to_be_bytes()` of `n` bytes
abbrev pub be_bytes : ℕ → ℕ → List ℕ
be_bytes zero x = []
be_bytes (suc n) x = x / 256 ^ n % 256 ∷ be_bytes n x

-- The pattern of `w` bits of a signed number in range.
abbrev pub pattern_of : ℕ → ℤ → ℕ
pattern_of w (pos x) = x
pattern_of w (negsuc x) = 2 ^ w - x - 1

unfoldable pub write_u8 : WriteBinary ℕ
write_u8 ctx x = ctx.write_bytes (x ∷ [])

unfoldable pub write_i8 : WriteBinary ℤ
write_i8 ctx x = ctx.write_bytes (be_bytes 1 (pattern_of 8 x))

unfoldable pub write_i16be : WriteBinary ℤ
write_i16be ctx x = ctx.write_bytes (be_bytes 2 (pattern_of 16 x))

unfoldable pub write_u16be : WriteBinary ℕ
write_u16be ctx x = ctx.write_bytes (be_bytes 2 x)

-- `&val.to_be_bytes()[1..4]`
unfoldable pub write_u24be : WriteBinary ℕ
write_u24be ctx x =
    if ltb 0xffffff x
    then (λ w. err WriteError.bad_value)
    else ctx.write_bytes (drop 1 (be_bytes 4 x))

unfoldable pub write_i32be : WriteBinary ℤ
write_i32be ctx x = ctx.write_bytes (be_bytes 4 (pattern_of 32 x))

unfoldable pub write_u32be : WriteBinary ℕ
write_u32be ctx x = ctx.write_bytes (be_bytes 4 x)

unfoldable pub write_i64be : WriteBinary ℤ
write_i64be ctx x = ctx.write_bytes (be_bytes 8 (pattern_of 64 x))

-- `WriteBinary for ReadScope`
unfoldable pub write_scope : WriteBinary ReadScope
write_scope ctx s = ctx.write_bytes s.bytes

-- `write_vec`, and the loops of `write_array`
unfoldable pub write_vec : {A : Type 0} → WriteBinary A → WriteBinary (List A)
write_vec write ctx [] w = ok w
write_vec write ctx (x ∷ xs) w = write ctx x w >>= write_vec write ctx xs

-- `u16::try_from` and `u32::try_from` of a `usize`
unfoldable pub try_from : ℕ → ℕ → Outcome WriteError ℕ
try_from limit x = if ltb x limit then ok x else err WriteError.bad_value

-- A place of `length` bytes to be filled in later.
pub record Placeholder : Type 0 where
  pub offset : ℕ
  pub length : ℕ

unfoldable pub reserve :
    (ctx : WriteContext) → ℕ → ctx.State → Outcome WriteError (Placeholder × ctx.State)
reserve ctx count w = ctx.write_zeros count w >>= λ w'.
    ok (record { offset = ctx.bytes_written w; length = count }, w')

-- `count` places of `size` bytes
unfoldable pub placeholder_array :
    (ctx : WriteContext) → ℕ → ℕ → ctx.State → Outcome WriteError (List Placeholder × ctx.State)
placeholder_array ctx size zero w = ok ([], w)
placeholder_array ctx size (suc count) w = reserve ctx size w >>= λ r.
    placeholder_array ctx size count r.1 >>= λ rest. ok (r.0 ∷ rest.0, rest.1)

-- `&mut self.data[offset..]` and `&mut data[0..length]` panic out of range.
unfoldable pub write_placeholder :
    {A : Type 0} → WriteBinary A → Placeholder → A → WriteBuffer → Outcome WriteError WriteBuffer
write_placeholder write p val w =
    if leb (p.offset + p.length) (length w.bytes)
    then (write slice_context val
          (record { offset = 0; bytes = take p.length (drop p.offset w.bytes) })
        >>= λ s. ok (record {
          bytes = take p.offset w.bytes ++ (s.bytes ++ drop (p.offset + p.length) w.bytes);
        }))
    else panic

-- On a counter the value is only tried.
unfoldable pub count_placeholder :
    {A : Type 0} → WriteBinary A → Placeholder → A → WriteCounter → Outcome WriteError WriteCounter
count_placeholder write p val w = write null_context val tt >>= λ _. ok w
