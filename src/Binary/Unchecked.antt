-- ===== src/Binary/Unchecked.antt =====
-- src/binary/read.rs: the `ReadUnchecked` types, and the reads of an array of them.
use allsorts.Base.{ℕ, ◌+◌, ◌-◌, ◌/◌, ◌%◌, min, max, ◌==◌, if◌then◌else◌, length}
use allsorts.Base.Int.{ℤ}
use allsorts.Binary.Scope.{ReadScope, usize_mod, usize_mul}
use allsorts.Binary.Read.{
  Reader, pure, ◌>>=◌, checked, read_scope, read_unchecked_u8, read_unchecked_i8,
  read_unchecked_u16be, read_unchecked_i16be, read_unchecked_u24be, read_unchecked_u32be,
  read_unchecked_i32be, read_unchecked_i64be,
}
use allsorts.Error.{panic}

-- `trait ReadUnchecked`, for the host type `A`
pub record ReadUnchecked (A : Type 0) : Type 0 where
  pub size : ℕ
  pub read_unchecked : Reader A

abbrev pub u8 : ReadUnchecked ℕ
u8 = record { size = 1; read_unchecked = read_unchecked_u8 }

abbrev pub i8 : ReadUnchecked ℤ
i8 = record { size = 1; read_unchecked = read_unchecked_i8 }

abbrev pub u16be : ReadUnchecked ℕ
u16be = record { size = 2; read_unchecked = read_unchecked_u16be }

abbrev pub i16be : ReadUnchecked ℤ
i16be = record { size = 2; read_unchecked = read_unchecked_i16be }

abbrev pub u24be : ReadUnchecked ℕ
u24be = record { size = 3; read_unchecked = read_unchecked_u24be }

abbrev pub u32be : ReadUnchecked ℕ
u32be = record { size = 4; read_unchecked = read_unchecked_u32be }

abbrev pub i32be : ReadUnchecked ℤ
i32be = record { size = 4; read_unchecked = read_unchecked_i32be }

abbrev pub i64be : ReadUnchecked ℤ
i64be = record { size = 8; read_unchecked = read_unchecked_i64be }

-- `impl ReadUnchecked for (T1, T2)`
abbrev pub pair : {A B : Type 0} → ReadUnchecked A → ReadUnchecked B → ReadUnchecked (A × B)
pair s t = record {
  size = s.size + t.size;
  read_unchecked = s.read_unchecked >>= λ a. t.read_unchecked >>= λ b. pure (a, b);
}

-- `impl ReadUnchecked for (T1, T2, T3)`
abbrev pub triple :
    {A B C : Type 0}
    → ReadUnchecked A
    → ReadUnchecked B
    → ReadUnchecked C
    → ReadUnchecked (A × B × C)
triple s t u = record {
  size = s.size + t.size + u.size;
  read_unchecked =
      s.read_unchecked >>= λ a. t.read_unchecked >>= λ b. u.read_unchecked >>= λ c. pure (a, b, c);
}

-- `impl ReadUnchecked for T where T: ReadFrom`
abbrev pub read_from : {A B : Type 0} → (A → B) → ReadUnchecked A → ReadUnchecked B
read_from f t = record { size = t.size; read_unchecked = t.read_unchecked >>= λ a. pure (f a) }

pub record ReadArray : Type 0 where
  pub scope : ReadScope
  pub length : ℕ

module _ {A : Type 0} (t : ReadUnchecked A) where
  -- `ReadBinary::read` of a `ReadUnchecked` type
  abbrev pub read : Reader A
  read = checked t.size t.read_unchecked

  unfoldable pub read_array : ℕ → Reader ReadArray
  read_array len =
      read_scope (usize_mul len t.size) >>= λ s. pure (record { scope = s; length = len })

  -- `buf_size - start_pos` of two `usize` wraps; a division by zero panics.
  unfoldable pub read_array_upto_hack : ℕ → Reader ReadArray
  unfolding read_array
  read_array_upto_hack len c =
      let buf_size = length c.scope.bytes in
      let avail_bytes = max 0 ((buf_size + usize_mod - c.offset) % usize_mod) in
      if t.size == 0 then panic else read_array (min len (avail_bytes / t.size)) c
