-- ===== src/Woff2/Bits.antt =====
-- src/woff2.rs, `BitSlice`: a bit array over bytes, most significant bit first.
use allsorts.Base.{ℕ, zero, suc, ◌+◌, ◌-◌, ◌*◌, ◌/◌, ◌%◌, ◌^◌, ◌<◌, ◌≡◌, sym, ap, ◌∙◌, arith}
use allsorts.Base.{List, [], ◌∷◌, leb, ◌==◌, if◌then◌else◌, length, get_elem?, bit_and}
use allsorts.Base.{Bool, Option, none, some, Bool-cases, inl, inr}
use allsorts.Base.Bits.{bit_and_shifted, bit_and-one}
use allsorts.Base.{subst}
use native.Mathlib.Nat.{one-le-pow}
use allsorts.Error.{Outcome, ok, panic, ParseError, ◌>>=◌}

-- `self.data.len() * 8`
abbrev pub bit_len : List ℕ → ℕ
bit_len bytes = length bytes * 8

-- `self.data[i]`
abbrev pub index_byte : List ℕ → ℕ → Outcome ParseError ℕ
index_byte bytes i = elim (get_elem? bytes i) [ none ↦ panic | some b ↦ ok b ]

unfoldable pub get_bit : List ℕ → ℕ → Outcome ParseError (Option Bool)
get_bit bytes index =
    if leb (bit_len bytes) index
    then ok none
    else (let byte_index = index / 8 in
        let shl = 8 - index % 8 - 1 in
        let mask = 2 ^ shl % 256 in
        index_byte bytes byte_index >>= λ byte. ok (some (bit_and byte mask == mask)))

-- The bits of a byte and of bytes, in the order of the array.
abbrev pub bit_of : ℕ → ℕ → Bool
bit_of byte k = byte / 2 ^ (7 - k) % 2 == 1

abbrev pub bits : List ℕ → List Bool
bits [] = []
bits (b ∷ bs) =
    bit_of b 0
    ∷ bit_of b 1
    ∷ bit_of b 2
    ∷ bit_of b 3
    ∷ bit_of b 4
    ∷ bit_of b 5
    ∷ bit_of b 6
    ∷ bit_of b 7
    ∷ bits bs

bit_test : (k b : ℕ) → (bit_and b (1 * 2 ^ k) == 1 * 2 ^ k) ≡ (b / 2 ^ k % 2 == 1)
bit_test k b = ground (arith, bit_and_shifted k b 1, bit_and-one (b / 2 ^ k), one-le-pow k 2)

first_bit :
    (b : ℕ) (bs : List ℕ) (k : ℕ)
    → k < 8
    → get_bit (b ∷ bs) k ≡ ok (some (bit_and b (2 ^ (8 - k - 1) % 256) == 2 ^ (8 - k - 1) % 256))
unfolding get_bit
first_bit b bs k h =
    let d : k / 8 ≡ 0 = omega arith in let m : k % 8 ≡ k = omega arith in rw (m, d) (ground arith)

later_bit : (b : ℕ) (bs : List ℕ) (i : ℕ) → get_bit (b ∷ bs) (8 + i) ≡ get_bit bs i
unfolding get_bit
later_bit b bs i =
    let d : (8 + i) / 8 ≡ suc (i / 8) = omega arith in
    let m : (8 + i) % 8 ≡ i % 8 = omega arith in
    rw (m, d)
      (elim (Bool-cases (leb (bit_len bs) i)) [
        | inl out ↦ ground arith
        | inr within ↦ ground arith
      ])

-- For all bytes and every index, `get_bit` is the bit at that index, most significant first, and
-- nothing past the end; no index panics.
get_bit-bits : (bytes : List ℕ) (i : ℕ) → get_bit bytes i ≡ ok (get_elem? (bits bytes) i)
get_bit-bits [] i = unfold get_bit in ground arith
get_bit-bits (b ∷ bs) zero = first_bit b bs 0 (omega arith) ∙ ap (λ t. ok (some t)) (bit_test 7 b)
get_bit-bits (b ∷ bs) (suc zero) =
    first_bit b bs 1 (omega arith) ∙ ap (λ t. ok (some t)) (bit_test 6 b)
get_bit-bits (b ∷ bs) (suc (suc zero)) =
    first_bit b bs 2 (omega arith) ∙ ap (λ t. ok (some t)) (bit_test 5 b)
get_bit-bits (b ∷ bs) (suc (suc (suc zero))) =
    first_bit b bs 3 (omega arith) ∙ ap (λ t. ok (some t)) (bit_test 4 b)
get_bit-bits (b ∷ bs) (suc (suc (suc (suc zero)))) =
    first_bit b bs 4 (omega arith) ∙ ap (λ t. ok (some t)) (bit_test 3 b)
get_bit-bits (b ∷ bs) (suc (suc (suc (suc (suc zero))))) =
    first_bit b bs 5 (omega arith) ∙ ap (λ t. ok (some t)) (bit_test 2 b)
get_bit-bits (b ∷ bs) (suc (suc (suc (suc (suc (suc zero)))))) =
    first_bit b bs 6 (omega arith) ∙ ap (λ t. ok (some t)) (bit_test 1 b)
get_bit-bits (b ∷ bs) (suc (suc (suc (suc (suc (suc (suc zero))))))) =
    first_bit b bs 7 (omega arith) ∙ ap (λ t. ok (some t)) (bit_test 0 b)
get_bit-bits (b ∷ bs) (suc (suc (suc (suc (suc (suc (suc (suc i)))))))) =
    let e : 8 + i ≡ suc (suc (suc (suc (suc (suc (suc (suc i))))))) = omega arith in
    subst (λ n. get_bit (b ∷ bs) n ≡ ok (get_elem? (bits (b ∷ bs)) n)) e
      (later_bit b bs i ∙ get_bit-bits bs i ∙ ap (λ n. ok (get_elem? (bits (b ∷ bs)) n)) (sym e))
