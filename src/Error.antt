-- ===== src/Error.antt =====
-- src/error.rs, and what a call of the library can end in. `From<ReadEof> for ParseError` is taken
-- where the value is made: a `ReadEof` is the error `bad_eof` at once. A `TryFromIntError` is
-- `bad_value` in the same way.
use allsorts.Base.{Option, none, some}

pub data ParseError : Type 0 where
  bad_eof bad_value bad_version bad_offset bad_index : ParseError
  limit_exceeded missing_value compression_error not_implemented : ParseError

pub data WriteError : Type 0 where
  bad_value not_implemented : WriteError

-- `panic` is a Rust panic (an index or a range out of bounds, a failed assertion, `unwrap`);
-- `undefined` is an out-of-bounds access in an `unsafe` block.
pub data Outcome {ℓ} (E : Type ℓ) (A : Type ℓ) : Type ℓ where
  ok : A → Outcome E A
  err : E → Outcome E A
  panic : Outcome E A
  undefined : Outcome E A

infixl 5 ◌>>=◌ ◌>>◌
abbrev pub ◌>>=◌ : {E A B : Type 0} → Outcome E A → (A → Outcome E B) → Outcome E B
ok a >>= f = f a
err e >>= f = err e
panic >>= f = panic
undefined >>= f = undefined

abbrev pub ◌>>◌ : {E B : Type 0} → Outcome E (Unit {0}) → Outcome E B → Outcome E B
m >> k = m >>= λ _. k

-- `Result::unwrap`
abbrev pub unwrap : {E A : Type 0} → Outcome E A → Outcome E A
unwrap (ok a) = ok a
unwrap (err e) = panic
unwrap panic = panic
unwrap undefined = undefined

-- `Option::ok_or`
abbrev pub ok_or : {E A : Type 0} → Option A → E → Outcome E A
ok_or none e = err e
ok_or (some a) e = ok a

-- The call ends in a value that satisfies `P`, or in an error; it neither panics nor reads out of
-- bounds.
abbrev pub Ends : {E A : Type 0} → (A → Type 0) → Outcome E A → Type 0
Ends P (ok a) = P a
Ends P (err e) = Unit {0}
Ends P panic = ⊥
Ends P undefined = ⊥

pub Ends->>= :
    {E A B : Type 0} {P : A → Type 0} (Q : B → Type 0) (o : Outcome E A) (f : A → Outcome E B)
    → Ends P o
    → ((a : A) → P a → Ends Q (f a))
    → Ends Q (o >>= f)
Ends->>= Q (ok a) f h k = k a h
Ends->>= Q (err e) f h k = tt
Ends->>= Q panic f h k = h
Ends->>= Q undefined f h k = h
