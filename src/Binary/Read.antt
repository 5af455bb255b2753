-- ===== src/Binary/Read.antt =====
-- src/binary/read.rs: `ReadCtxt`, a position in a scope, and its primitive reads. A method on `&mut
-- ReadCtxt` is a `Reader`, which returns the new context with its result; a call that fails returns
-- no context. The position is moved only inside a slice, and its sums are written without a
-- modulus.
pub mod Remaining
pub mod Values
pub mod Fixed
pub mod Safety
pub mod Results
pub mod Gives
pub mod Nested
use allsorts.Base.{ℕ, ◌+◌, ◌-◌, ◌*◌, ◌/◌, ◌%◌, ◌^◌, bit_and, bit_or, Bool, true, false}
use allsorts.Base.{Option, none, some, List, [], ◌∷◌, ◌||◌, min, max}
use allsorts.Base.{ltb, leb, ◌==◌, if◌then◌else◌, length, drop, All, ◌≤◌, ◌<◌}
use allsorts.Base.Int.{ℤ, pos, negsuc}
use allsorts.Binary.Scope.{ReadScope, checked_add, get_unchecked, slice_from, offset, offset_length}
use allsorts.Error.{Outcome, ok, err, panic, undefined, ParseError, bad_eof, bad_value, bad_version}

pub record ReadCtxt : Type 0 where
  pub scope : ReadScope
  pub offset : ℕ

abbrev pub IsByte : ℕ → Type 0
IsByte b = b < 256

-- A position in a slice: a slice of Rust has at most `isize::MAX` bytes.
pub record IsValid (c : ReadCtxt) : Type 0 where
  pub bounded : c.offset ≤ length c.scope.bytes
  pub fits : length c.scope.bytes < 2 ^ 63
  pub octets : All IsByte c.scope.bytes

abbrev pub Reader : Type 0 → Type 0
Reader A = ReadCtxt → Outcome ParseError (A × ReadCtxt)

-- What follows a call that has ended.
abbrev pub resume :
    {A B : Type 0}
    → (A → Reader B)
    → Outcome ParseError (A × ReadCtxt)
    → Outcome ParseError (B × ReadCtxt)
resume f (ok (a, c)) = f a c
resume f (err e) = err e
resume f panic = panic
resume f undefined = undefined

infixl 5 ◌>>=◌ ◌>>◌
abbrev pub ◌>>=◌ : {A B : Type 0} → Reader A → (A → Reader B) → Reader B
◌>>=◌ m f c = resume f (m c)

abbrev pub ◌>>◌ : {B : Type 0} → Reader (Unit {0}) → Reader B → Reader B
m >> k = m >>= λ _. k

abbrev pub pure : {A : Type 0} → A → Reader A
pure a c = ok (a, c)

abbrev pub fail : {A : Type 0} → ParseError → Reader A
fail e c = err e

-- A result that does not come from the context.
abbrev pub lift : {A : Type 0} → Outcome ParseError A → Reader A
lift (ok a) c = ok (a, c)
lift (err e) c = err e
lift panic c = panic
lift undefined c = undefined

-- `ReadScope::ctxt`
abbrev pub new_ctxt : ReadScope → ReadCtxt
new_ctxt s = record { scope = s; offset = 0 }

-- `ReadScope::read`: what is read from the start of a scope.
abbrev pub scope_read : {A : Type 0} → Reader A → ReadScope → Outcome ParseError A
scope_read m s = elim (m (new_ctxt s)) [
  | ok (a, c) ↦ ok a
  | err e ↦ err e
  | panic ↦ panic
  | undefined ↦ undefined
]

-- What is still to be read.
abbrev pub remaining : ReadCtxt → List ℕ
remaining c = drop c.offset c.scope.bytes

-- The context `n` bytes further on.
abbrev pub advance : ReadCtxt → ℕ → ReadCtxt
advance c n = record c { offset = c.offset + n }

unfoldable pub check : Bool → Reader (Unit {0})
check true = pure tt
check false = fail bad_value

unfoldable pub check_version : Bool → Reader (Unit {0})
check_version true = pure tt
check_version false = fail bad_version

-- `ReadCtxt::scope`
abbrev pub rest_scope : ReadCtxt → ReadScope
rest_scope c = offset c.scope c.offset

unfoldable pub bytes_available : ReadCtxt → Bool
bytes_available c = ltb c.offset (length c.scope.bytes)

unfoldable pub check_avail : ℕ → Reader (Unit {0})
check_avail len c = elim (checked_add c.offset len) [
  | some endpos ↦ if leb endpos (length c.scope.bytes) then ok (tt, c) else err bad_eof
  | none ↦ err bad_eof
]

-- `*self.scope.data.get_unchecked(self.offset + i)`
unfoldable pub peek_unchecked : ℕ → Reader ℕ
peek_unchecked i c = lift (get_unchecked c.scope.bytes (c.offset + i)) c

abbrev pub skip : ℕ → Reader (Unit {0})
skip n c = ok (tt, advance c n)

-- `x << k` at a width of `w` bits
abbrev pub shl : ℕ → ℕ → ℕ → ℕ
shl w x k = x * 2 ^ k % 2 ^ w

-- `x as i8`, `x as i16`, ...: the number that a pattern of `w` bits stands for
abbrev pub signed : ℕ → ℕ → ℤ
signed w x = if ltb x (2 ^ (w - 1)) then pos x else negsuc (2 ^ w - x - 1)

unfoldable pub read_unchecked_u8 : Reader ℕ
read_unchecked_u8 = do byte ← peek_unchecked 0; skip 1; pure byte

unfoldable pub read_unchecked_i8 : Reader ℤ
read_unchecked_i8 = do byte ← read_unchecked_u8; pure (signed 8 byte)

unfoldable pub read_unchecked_u16be : Reader ℕ
read_unchecked_u16be = do
  hi ← peek_unchecked 0
  lo ← peek_unchecked 1
  skip 2
  pure (bit_or (shl 16 hi 8) lo)

unfoldable pub read_unchecked_i16be : Reader ℤ
read_unchecked_i16be = do word ← read_unchecked_u16be; pure (signed 16 word)

unfoldable pub read_unchecked_u24be : Reader ℕ
read_unchecked_u24be = do
  b0 ← peek_unchecked 0
  b1 ← peek_unchecked 1
  b2 ← peek_unchecked 2
  skip 3
  pure (bit_or (bit_or (shl 32 b0 16) (shl 32 b1 8)) b2)

unfoldable pub read_unchecked_u32be : Reader ℕ
read_unchecked_u32be = do
  b0 ← peek_unchecked 0
  b1 ← peek_unchecked 1
  b2 ← peek_unchecked 2
  b3 ← peek_unchecked 3
  skip 4
  pure (bit_or (bit_or (bit_or (shl 32 b0 24) (shl 32 b1 16)) (shl 32 b2 8)) b3)

unfoldable pub read_unchecked_i32be : Reader ℤ
read_unchecked_i32be = do word ← read_unchecked_u32be; pure (signed 32 word)

unfoldable pub read_unchecked_u64be : Reader ℕ
read_unchecked_u64be = do
  hi ← read_unchecked_u32be
  lo ← read_unchecked_u32be
  pure (bit_or (shl 64 hi 32) lo)

unfoldable pub read_unchecked_i64be : Reader ℤ
read_unchecked_i64be = do word ← read_unchecked_u64be; pure (signed 64 word)

-- A read behind its bounds check.
abbrev pub checked : {A : Type 0} → ℕ → Reader A → Reader A
checked size m = check_avail size >> m

unfoldable pub read_u8 : Reader ℕ
read_u8 = checked 1 read_unchecked_u8

unfoldable pub read_i8 : Reader ℤ
read_i8 = checked 1 read_unchecked_i8

unfoldable pub read_u16be : Reader ℕ
read_u16be = checked 2 read_unchecked_u16be

unfoldable pub read_i16be : Reader ℤ
read_i16be = checked 2 read_unchecked_i16be

unfoldable pub read_u32be : Reader ℕ
read_u32be = checked 4 read_unchecked_u32be

unfoldable pub read_i32be : Reader ℤ
read_i32be = checked 4 read_unchecked_i32be

unfoldable pub read_u64be : Reader ℕ
read_u64be = checked 8 read_unchecked_u64be

unfoldable pub read_i64be : Reader ℤ
read_i64be = checked 8 read_unchecked_i64be

-- Every error of `offset_length` becomes an end of file.
unfoldable pub read_scope : ℕ → Reader ReadScope
read_scope len c = elim (offset_length c.scope c.offset len) [
  | ok s ↦ ok (s, advance c len)
  | err _ ↦ err bad_eof
  | panic ↦ panic
  | undefined ↦ undefined
]

unfoldable pub read_slice : ℕ → Reader (List ℕ)
read_slice len = do s ← read_scope len; pure s.bytes

-- `iter().position(|&b| (b >> 4) == nibble || (b & 0xF) == nibble)`
nibble_position : ℕ → List ℕ → Option ℕ
nibble_position nibble [] = none
nibble_position nibble (b ∷ bs) =
    if b / 16 == nibble || bit_and b 0xf == nibble
    then some 0
    else elim (nibble_position nibble bs) [ none ↦ none | some i ↦ some (i + 1) ]

unfoldable pub read_until_nibble : ℕ → Reader (List ℕ)
unfolding nibble_position
read_until_nibble nibble c =
    (do
      rest ← lift (slice_from c.offset c.scope.bytes)
      elim (nibble_position nibble rest) [ none ↦ fail bad_eof | some end ↦ read_slice (end + 1) ])
      c
