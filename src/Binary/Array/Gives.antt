-- ===== src/Binary/Array/Gives.antt =====
-- Readers that go on behind an array, or behind a word of 32 bits, and may count on it.
use allsorts.Base.{
  ℕ, ◌*◌, ◌^◌, ◌≤◌, ◌<◌, ◌≡◌, refl, arith, leb, leb→le, List, length, take, All, All-take,
  length-take, Bool-cases, inl, inr,
}
use allsorts.Binary.Read.{Reader, IsByte, remaining, advance, read_u32be, ◌>>=◌}
use allsorts.Binary.Read.Remaining.{remaining-octets}
use allsorts.Binary.Read.Values.{be_value, be_value-lt}
use allsorts.Binary.Read.Fixed.{read_u32be-Fixed}
use allsorts.Binary.Read.Safety.{Follows-advance}
use allsorts.Binary.Read.Gives.{Gives, widen}
use allsorts.Binary.Unchecked.{ReadUnchecked, ReadArray, read_array}
use allsorts.Binary.Array.Laws.{IsArray}
use allsorts.Binary.Vector.{read_array_lem, array_at, array_at-IsArray}

-- An array of so many items that are all there.
abbrev pub IsFilled : ℕ → ℕ → ReadArray → Type 0
IsFilled size len array = IsArray size array × (array.length ≡ len)

long_bound : (r : List ℕ) → All IsByte r → 4 ≤ length r → be_value (take 4 r) < 2 ^ 32
long_bound r o h =
    let e : length (take 4 r) ≡ 4 = omega (arith, length-take 4 r) in
    rw e at (be_value-lt (take 4 r) (All-take IsByte 4 r o))

module _ {B : Type 0} (P : B → Type 0) where
  pub Gives-array :
      {A : Type 0} (t : ReadUnchecked A) (len : ℕ) (f : ReadArray → Reader B)
      → len * t.size < 2 ^ 64
      → ((array : ReadArray) → IsFilled t.size len array → Gives P (f array))
      → Gives P (read_array t len >>= f)
  Gives-array t len f small hf c v =
      rw (read_array_lem t len c small v)
        (elim (Bool-cases (leb (len * t.size) (length (remaining c)))) [
          | inl fits ↦ rw fits (
              let within = leb→le _ _ fits in
              let d = advance c (len * t.size) in
              let go = Follows-advance c (len * t.size) v within in
              widen P c d (f (array_at t c len) d) go
                (hf (array_at t c len) (array_at-IsArray t c len v within, refl) d go.valid))
          | inr short ↦ rw short tt
        ])

  pub Gives-u32be :
      (f : ℕ → Reader B) → ((x : ℕ) → x < 2 ^ 32 → Gives P (f x)) → Gives P (read_u32be >>= f)
  Gives-u32be f hf c v =
      rw (read_u32be-Fixed c v) (elim (Bool-cases (leb 4 (length (remaining c)))) [
        | inl fits ↦ rw fits (
            let within = leb→le 4 _ fits in
            let go = Follows-advance c 4 v within in
            let x = be_value (take 4 (remaining c)) in
            widen P c (advance c 4) (f x (advance c 4)) go (
              hf x (long_bound (remaining c) (remaining-octets c v) within) (advance c 4) go.valid))
        | inr short ↦ rw short tt
      ])
