-- ===== src/Tests.antt =====
-- Runs of the model on concrete inputs, and the theorems at inputs where their hypotheses hold.
mod Binary
mod Numbers
mod Tables
mod Sets
mod Shaping
mod Glyphs
use allsorts.Base.{ℕ, ◌^◌, ◌<◌, ◌≡◌, arith, Bool, true, List, [], ◌∷◌, ◌&&◌, ltb, length, All}
use allsorts.Binary.Scope.{new_scope}
use allsorts.Binary.Read.{ReadCtxt, IsByte, IsValid, new_ctxt}

-- A context at the start of bytes.
abbrev pub ctxt_of : List ℕ → ReadCtxt
ctxt_of bytes = new_ctxt (new_scope bytes)

abbrev pub all_bytes : List ℕ → Bool
all_bytes [] = true
all_bytes (b ∷ bs) = ltb b 256 && all_bytes bs

pub all_bytes-octets : (bs : List ℕ) → all_bytes bs ≡ true → All IsByte bs
all_bytes-octets [] h = tt
all_bytes-octets (b ∷ bs) h = (ground arith, all_bytes-octets bs (ground arith))

pub ctxt_of-IsValid :
    (bs : List ℕ) → all_bytes bs ≡ true → length bs < 2 ^ 63 → IsValid (ctxt_of bs)
ctxt_of-IsValid bs h k = record { bounded = omega arith; fits = k; octets = all_bytes-octets bs h }
