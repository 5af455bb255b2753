-- ===== src/Checksum/Sum.antt =====
-- The checksum against the sum of the words.
use allsorts.Base.{ℕ, zero, suc, ◌+◌, ◌*◌, ◌/◌, ◌%◌, ◌^◌, ◌<◌, ◌≡◌, ap, ◌∙◌}
use allsorts.Base.{List, [], ◌∷◌, ◌++◌, arith, length, All, le→leb, ==_iff}
use allsorts.Base.{length-append, All-append}
use allsorts.Binary.Scope.{new_scope}
use allsorts.Binary.Read.{IsByte, IsValid, new_ctxt}
use allsorts.Binary.Read.Values.{be_value, read_unchecked_u32be-Exact}
use allsorts.Binary.Unchecked.{u32be}
use allsorts.Binary.Vector.{read_vec-Fixed}
use allsorts.Binary.Array.Items.{items, items-take}
use allsorts.Checksum.{table_checksum, wrapping_sum, wrapping_add}
use allsorts.Error.{ok}

-- The 32-bit words of a table, and their sum as a number.
abbrev pub words : List ℕ → List ℕ
words bytes = items 4 be_value (length bytes / 4) bytes

abbrev pub sum : List ℕ → ℕ
sum [] = 0
sum (x ∷ xs) = x + sum xs

wrapping_sum-sum :
    (acc : ℕ) (xs : List ℕ) → acc < 2 ^ 32 → wrapping_sum acc xs ≡ (acc + sum xs) % 2 ^ 32
unfolding wrapping_sum
wrapping_sum-sum acc [] h = omega arith
wrapping_sum-sum acc (x ∷ xs) h =
    wrapping_sum-sum (wrapping_add acc x) xs (omega arith) ∙ omega arith

-- The bytes of a table in memory.
pub record IsTable (bytes : List ℕ) : Type 0 where
  pub octets : All IsByte bytes
  pub fits : length bytes < 2 ^ 63
  pub aligned : length bytes % 4 ≡ 0

start-IsValid : (bytes : List ℕ) → IsTable bytes → IsValid (new_ctxt (new_scope bytes))
start-IsValid bytes t = record { bounded = omega arith; fits = t.fits; octets = t.octets }

-- For a table of bytes whose length is a multiple of four and below 2 ^ 63, `table_checksum` is the
-- sum of its big-endian words of 32 bits, modulo 2 ^ 32.
pub table_checksum-sum :
    (bytes : List ℕ) → IsTable bytes → table_checksum bytes ≡ ok (sum (words bytes) % 2 ^ 32)
unfolding table_checksum
table_checksum-sum bytes t =
    let n : ℕ = length bytes / 4 in
    let whole : n * 4 ≡ length bytes = omega (arith, t.aligned) in
    rw
      (
        (==_iff (length bytes % 4) 0).1 t.aligned,
        read_vec-Fixed u32be be_value read_unchecked_u32be-Exact n (omega (arith, t.fits))
            (new_ctxt (new_scope bytes)) (start-IsValid bytes t),
        le→leb (n * 4) (length bytes) (omega arith),
        items-take 4 be_value n bytes,
      )
      (ap ok (wrapping_sum-sum 0 (items 4 be_value n bytes) (omega arith) ∙ omega arith))

items-append :
    (n m : ℕ) (xs ys : List ℕ)
    → length xs ≡ n * 4
    → sum (items 4 be_value (n + m) (xs ++ ys))
      ≡ sum (items 4 be_value n xs) + sum (items 4 be_value m ys)
items-append zero m [] ys h = let e : 0 + m ≡ m = omega arith in rw e (omega arith)
items-append zero m (x ∷ xs) ys h = absurd (omega arith)
items-append (suc n) m [] ys h = absurd (omega arith)
items-append (suc n) m (a ∷ []) ys h = absurd (omega arith)
items-append (suc n) m (a ∷ b ∷ []) ys h = absurd (omega arith)
items-append (suc n) m (a ∷ b ∷ c ∷ []) ys h = absurd (omega arith)
items-append (suc n) m (a ∷ b ∷ c ∷ d ∷ xs) ys h =
    let e : suc n + m ≡ suc (n + m) = omega arith in
    rw e (omega (arith, items-append n m xs ys (omega arith)))

-- For two tables of bytes whose lengths are multiples of four and together below 2 ^ 63, the
-- checksums of both and of their concatenation exist, and the last is the sum of the others modulo
-- 2 ^ 32.
table_checksum-append :
    (xs ys : List ℕ)
    → IsTable xs
    → IsTable ys
    → length xs + length ys < 2 ^ 63
    → (a b : ℕ) × (table_checksum xs ≡ ok a)
      × (table_checksum ys ≡ ok b)
      × (table_checksum (xs ++ ys) ≡ ok ((a + b) % 2 ^ 32))
table_checksum-append xs ys hx hy small = (
  sum (words xs) % 2 ^ 32,
  sum (words ys) % 2 ^ 32,
  table_checksum-sum xs hx,
  table_checksum-sum ys hy,
  table_checksum-sum (xs ++ ys) both ∙ ap ok (ap (λ (k : ℕ). k % 2 ^ 32) total ∙ omega arith),
)
  where
    both : IsTable (xs ++ ys)
    both = record {
      octets = All-append IsByte xs ys hx.octets hy.octets;
      fits = omega (arith, length-append xs ys);
      aligned = omega (arith, length-append xs ys, hx.aligned, hy.aligned);
    }

    count : length (xs ++ ys) / 4 ≡ length xs / 4 + length ys / 4
    count = omega (arith, length-append xs ys, hx.aligned, hy.aligned)

    total : sum (words (xs ++ ys)) ≡ sum (words xs) + sum (words ys)
    total =
        ap (λ n. sum (items 4 be_value n (xs ++ ys))) count
        ∙ items-append (length xs / 4) (length ys / 4) xs ys (omega (arith, hx.aligned))
