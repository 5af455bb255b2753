-- ===== src/Context/Flags.antt =====
-- The fields of a lookup flag.
use allsorts.Base.{ℕ, ◌*◌, ◌/◌, ◌%◌, ◌^◌, ◌<◌, ◌≡◌, ap, ◌∙◌, arith, bit_and, ◌==◌, if◌then◌else◌}
use allsorts.Base.Bits.{bit_and_shifted, bit_and-one, bit_and_low}
use allsorts.Context.{
  IgnoreMarks, no_ignore_marks, ignore_all_marks, ignore_marks_except, get_ignore_bases,
  get_ignore_ligatures, get_ignore_marks, from_lookup_flag,
}

-- A single bit of a word.
bit_lem : (k f : ℕ) → bit_and f (1 * 2 ^ k) ≡ f / 2 ^ k % 2 * 2 ^ k
bit_lem k f = bit_and_shifted k f 1 ∙ ap (λ (x : ℕ). x * 2 ^ k) (bit_and-one (f / 2 ^ k))

high_byte : (f : ℕ) → bit_and f 0xff00 ≡ f / 2 ^ 8 % 2 ^ 8 * 2 ^ 8
high_byte f = bit_and_shifted 8 f 255 ∙ ap (λ (x : ℕ). x * 2 ^ 8) (bit_and_low 8 (f / 2 ^ 8))

-- The marks that a flag ignores: all where bit 3 is set, else those whose class is not in the high
-- byte, else none.
abbrev pub marks_of : ℕ → IgnoreMarks
marks_of f =
    if f / 8 % 2 == 1
    then ignore_all_marks
    else if f / 256 == 0
    then no_ignore_marks
    else ignore_marks_except (f / 256)

-- For every flag of 16 bits, `from_lookup_flag` ignores bases by bit 1, ligatures by bit 2, and
-- marks by bit 3 or else by the class in the high byte.
pub from_lookup_flag_lem :
    (f : ℕ)
    → f < 2 ^ 16
    → from_lookup_flag f ≡ record {
      ignore_bases = f / 2 % 2 == 1;
      ignore_ligatures = f / 4 % 2 == 1;
      ignore_marks = marks_of f;
    }
unfolding from_lookup_flag
from_lookup_flag_lem f h =
    λ i. record { ignore_bases = bases i; ignore_ligatures = ligatures i; ignore_marks = marks i }
  where
    bases : get_ignore_bases f ≡ (f / 2 % 2 == 1)
    bases = ground (arith, bit_lem 1 f)

    ligatures : get_ignore_ligatures f ≡ (f / 4 % 2 == 1)
    ligatures = ground (arith, bit_lem 2 f)

    marks : get_ignore_marks f ≡ marks_of f
    marks = ground (arith, bit_lem 3 f, high_byte f)
