-- ===== src/Binary/Write/Adds.antt =====
-- Writers of several values: the bytes that they add to a buffer, one after the other.
use allsorts.Base.{ℕ, ◌≡◌, refl, ◌∙◌, List, [], ◌∷◌, ◌++◌}
use allsorts.Base.Int.{ℤ}
use allsorts.Binary.Write.{
  WriteBinary, WriteBuffer, buffer_context, be_bytes, pattern_of, write_vec, write_u16be,
  write_u32be, write_i16be, write_u8,
}
use allsorts.Binary.Write.Count.{concat}
use allsorts.Error.{Outcome, ok, WriteError, ◌>>=◌}
use mathlib.Core.List.{append_assoc, append-nil}

abbrev pub BufferStep : Type 0
BufferStep = WriteBuffer → Outcome WriteError WriteBuffer

-- The step succeeds, adds the bytes at the end of the buffer and changes nothing else.
abbrev pub Adds : BufferStep → List ℕ → Type 0
Adds m bs = (w : WriteBuffer) → m w ≡ ok (record { bytes = w.bytes ++ bs })

pub Adds->>= :
    (m k : BufferStep) (bs cs : List ℕ) → Adds m bs → Adds k cs → Adds (λ w. m w >>= k) (bs ++ cs)
Adds->>= m k bs cs hm hk w =
    rw (hm w) (hk (record { bytes = w.bytes ++ bs }) ∙ rw (append_assoc w.bytes bs cs) refl)

pub Adds-ok : Adds (λ w. ok w) []
Adds-ok w = rw (append-nil w.bytes) refl

pub Adds-u8 : (x : ℕ) → Adds (write_u8 buffer_context x) (x ∷ [])
unfolding write_u8
Adds-u8 x w = refl

pub Adds-u16be : (x : ℕ) → Adds (write_u16be buffer_context x) (be_bytes 2 x)
unfolding write_u16be
Adds-u16be x w = refl

pub Adds-u32be : (x : ℕ) → Adds (write_u32be buffer_context x) (be_bytes 4 x)
unfolding write_u32be
Adds-u32be x w = refl

pub Adds-i16be : (x : ℤ) → Adds (write_i16be buffer_context x) (be_bytes 2 (pattern_of 16 x))
unfolding write_i16be
Adds-i16be x w = refl

pub Adds-vec :
    {A : Type 0} (write : WriteBinary A) (f : A → List ℕ)
    → ((x : A) → Adds (write buffer_context x) (f x))
    → (xs : List A) → Adds (write_vec write buffer_context xs) (concat f xs)
unfolding write_vec
Adds-vec write f h [] = Adds-ok
Adds-vec write f h (x ∷ xs) =
    Adds->>= (write buffer_context x) (write_vec write buffer_context xs) (f x) (concat f xs) (h x)
      (Adds-vec write f h xs)
