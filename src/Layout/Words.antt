-- ===== src/Layout/Words.antt =====
-- Stored words of 16 bits, one by one, in arrays and in records of three, as the layout tables store
-- them.
use allsorts.Base.{
  ℕ, ◌*◌, ◌^◌, ◌<◌, ◌≡◌, refl, ap, ap₂, subst, ◌∙◌, arith, List, [], ◌∷◌, ◌++◌, length, All,
}
use allsorts.Binary.Read.{read_u16be}
use allsorts.Binary.Read.Remaining.{Reads}
use allsorts.Binary.Read.Values.{be_value, read_unchecked_u16be-Exact, Exact}
use allsorts.Binary.Read.Fixed.{Fixed-Reads, read_u16be-Fixed}
use allsorts.Binary.Unchecked.{u16be, triple, read_from}
use allsorts.Binary.Array.Items.{items}
use allsorts.Binary.Vector.{read_vec, read_vec-Reads, three_words, words-Exact, read_from-Exact}
use allsorts.Binary.Write.{be_bytes}

pub word_value : (x : ℕ) → x < 2 ^ 16 → be_value (be_bytes 2 x) ≡ x
word_value x h = omega arith

abbrev pub words_bytes : List ℕ → List ℕ
words_bytes [] = []
words_bytes (x ∷ xs) = be_bytes 2 x ++ words_bytes xs

pub items-words :
    (xs : List ℕ) → All (λ x. x < 2 ^ 16) xs → items 2 be_value (length xs) (words_bytes xs) ≡ xs
items-words [] h = refl
items-words (x ∷ xs) (h, hs) = ap₂ (λ y ys. y ∷ ys) (word_value x h) (items-words xs hs)

pub length-words_bytes : (xs : List ℕ) → length (words_bytes xs) ≡ length xs * 2
length-words_bytes [] = refl
length-words_bytes (x ∷ xs) = omega (arith, length-words_bytes xs)

pub word_Reads : (x : ℕ) → x < 2 ^ 16 → Reads read_u16be (be_bytes 2 x) x
word_Reads x h =
    subst (λ y. Reads read_u16be (be_bytes 2 x) y) (word_value x h)
      (Fixed-Reads read_u16be be_value (be_bytes 2 x) read_u16be-Fixed)

pub words_Reads :
    (xs : List ℕ)
    → All (λ x. x < 2 ^ 16) xs
    → length xs < 2 ^ 16
    → Reads (read_vec u16be (length xs)) (words_bytes xs) xs
words_Reads xs h l =
    subst (λ ys. Reads (read_vec u16be (length xs)) (words_bytes xs) ys) (items-words xs h)
      (read_vec-Reads u16be be_value read_unchecked_u16be-Exact (length xs) (words_bytes xs)
        (length-words_bytes xs) (omega arith))

-- Records of three words.
abbrev pub IsTriple : ℕ × ℕ × ℕ → Type 0
IsTriple (a, b, d) = (a < 2 ^ 16) × (b < 2 ^ 16) × (d < 2 ^ 16)

abbrev pub triple_bytes : ℕ × ℕ × ℕ → List ℕ
triple_bytes (a, b, d) = be_bytes 2 a ++ (be_bytes 2 b ++ be_bytes 2 d)

triple_value : (t : ℕ × ℕ × ℕ) → IsTriple t → three_words (triple_bytes t) ≡ t
triple_value (a, b, d) (ha, hb, hd) = λ i. (word_value a ha i, word_value b hb i, word_value d hd i)

module _ {A : Type 0} (of_words : ℕ × ℕ × ℕ → A) (words_of : A → ℕ × ℕ × ℕ)
    (same : (a : A) → of_words (words_of a) ≡ a) where
  abbrev pub records_bytes : List A → List ℕ
  records_bytes [] = []
  records_bytes (r ∷ rs) = triple_bytes (words_of r) ++ records_bytes rs

  items-records :
      (rs : List A)
      → All (λ r. IsTriple (words_of r)) rs
      → items 6 (λ bs. of_words (three_words bs)) (length rs) (records_bytes rs) ≡ rs
  items-records [] h = refl
  items-records (r ∷ rs) (h, hs) =
      ap₂ (λ x xs. x ∷ xs) (ap of_words (triple_value (words_of r) h) ∙ same r)
        (items-records rs hs)

  length-records_bytes : (rs : List A) → length (records_bytes rs) ≡ length rs * 6
  length-records_bytes [] = refl
  length-records_bytes (r ∷ rs) = omega (arith, length-records_bytes rs)

  pub record-Exact :
      Exact
        (read_from of_words (triple u16be u16be u16be)).read_unchecked
        6
        (λ bs. of_words (three_words bs))
  record-Exact = read_from-Exact of_words (triple u16be u16be u16be) three_words words-Exact

  pub records_Reads :
      (rs : List A)
      → All (λ r. IsTriple (words_of r)) rs
      → length rs < 2 ^ 16
      → Reads
          (read_vec (read_from of_words (triple u16be u16be u16be)) (length rs))
          (records_bytes rs)
          rs
  records_Reads rs h l =
      let t = read_from of_words (triple u16be u16be u16be) in
      subst (λ ys. Reads (read_vec t (length rs)) (records_bytes rs) ys) (items-records rs h)
        (read_vec-Reads t (λ bs. of_words (three_words bs)) record-Exact (length rs)
          (records_bytes rs) (length-records_bytes rs) (omega arith))
