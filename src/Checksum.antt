-- ===== src/Checksum.antt =====
-- src/checksum.rs: the checksum of a table, a wrapping sum of words of 32 bits.
pub mod Sum
use allsorts.Base.{ℕ, ◌+◌, ◌/◌, ◌%◌, ◌^◌, List, [], ◌∷◌, ◌==◌, if◌then◌else◌, length}
use allsorts.Binary.Scope.{new_scope}
use allsorts.Binary.Read.{new_ctxt}
use allsorts.Binary.Unchecked.{u32be}
use allsorts.Binary.Vector.{read_vec}
use allsorts.Error.{Outcome, ok, panic, ParseError, ◌>>=◌}

-- `Wrapping<u32>` addition
abbrev pub wrapping_add : ℕ → ℕ → ℕ
wrapping_add a b = (a + b) % 2 ^ 32

-- `Iterator::sum`, from an accumulator that starts at zero
unfoldable pub wrapping_sum : ℕ → List ℕ → ℕ
wrapping_sum acc [] = acc
wrapping_sum acc (x ∷ xs) = wrapping_sum (wrapping_add acc x) xs

-- The assertion on the length panics.
unfoldable pub table_checksum : List ℕ → Outcome ParseError ℕ
unfolding wrapping_sum
table_checksum bytes =
    if length bytes % 4 == 0
    then (read_vec u32be (length bytes / 4) (new_ctxt (new_scope bytes)) >>= λ r.
        ok (wrapping_sum 0 r.0))
    else panic
