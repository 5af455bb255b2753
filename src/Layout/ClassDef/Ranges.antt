-- ===== src/Layout/ClassDef/Ranges.antt =====
-- Reading the ranges of a class definition, cut to what the table holds, and their stored bytes.
use allsorts.Base.{
  ℕ, ◌+◌, ◌*◌, ◌/◌, ◌^◌, ◌≤◌, ◌<◌, ◌≡◌, refl, ap, sym, ap₂, ◌∙◌, arith, min, max, ◌-◌, ◌%◌,
}
use allsorts.Base.{
  List, [], ◌∷◌, ◌++◌, length, All, leb, Bool-cases, inl, inr, leb→le, le→leb, false,
}
use allsorts.Binary.Read.{Reader, ReadCtxt, IsValid, remaining, advance}
use allsorts.Binary.Read.Remaining.{length-remaining}
use allsorts.Binary.Read.Values.{Exact}
use allsorts.Binary.Scope.{usize_mod}
use allsorts.Binary.Unchecked.{u16be, triple, read_array, read_array_upto_hack}
use allsorts.Binary.Array.Items.{items, items-take}
use allsorts.Binary.Vector.{
  read_vec, read_vec-Fixed, read_array_lem, three_words, words-Exact, read_from-Exact, array_at,
}
use allsorts.Binary.Write.{be_bytes}
use allsorts.Error.{ok, err, bad_eof, ParseError}
use allsorts.Layout.Words.{word_value}
use allsorts.Layout.ClassDef.{
  ClassRangeRecord, class_range_of, class_range_record, read_ranges, read_range_vec, or_else,
}

abbrev pub class_range_value : List ℕ → ClassRangeRecord
class_range_value bs = class_range_of (three_words bs)

range-Exact : Exact class_range_record.read_unchecked 6 class_range_value
range-Exact = read_from-Exact class_range_of (triple u16be u16be u16be) three_words words-Exact

or_else_ok :
    {A : Type 0} (m k : Reader A) (c : ReadCtxt) (r : A × ReadCtxt)
    → m c ≡ ok r
    → or_else m k c ≡ ok r
or_else_ok m k c r h = rw (or_else, h) refl

or_else_err :
    {A : Type 0} (m k : Reader A) (c : ReadCtxt) (e : ParseError)
    → m c ≡ err e
    → or_else m k c ≡ k c
or_else_err m k c e h = rw (or_else, h) refl

abbrev pub available : ReadCtxt → ℕ
available c = length (remaining c) / 6

read_array_fits :
    (count : ℕ) (c : ReadCtxt)
    → count < 2 ^ 16
    → IsValid c
    → count * 6 ≤ length (remaining c)
    → read_array class_range_record count c
      ≡ ok (array_at class_range_record c count, advance c (count * 6))
read_array_fits count c h v fits =
    read_array_lem class_range_record count c (omega arith) v
    ∙ rw (le→leb (count * 6) (length (remaining c)) fits) refl

read_array_short :
    (count : ℕ) (c : ReadCtxt)
    → count < 2 ^ 16
    → IsValid c
    → leb (count * 6) (length (remaining c)) ≡ false
    → read_array class_range_record count c ≡ err bad_eof
read_array_short count c h v short =
    read_array_lem class_range_record count c (omega arith) v ∙ rw short refl

upto_lem :
    (count : ℕ) (c : ReadCtxt)
    → IsValid c
    → read_array_upto_hack class_range_record count c
      ≡ read_array class_range_record (min count (available c)) c
unfolding read_array_upto_hack
upto_lem count c v =
    let e : max 0 ((length c.scope.bytes + usize_mod - c.offset) % usize_mod)
        ≡ length (remaining c) =
      omega (arith, length-remaining c v, v.fits, v.bounded) in
    ap (λ n. read_array class_range_record (min count (n / 6)) c) e

-- What `read_ranges` reads: the ranges it is asked for, or as many as the table still holds.
read_ranges_lem :
    (count : ℕ) (c : ReadCtxt)
    → count < 2 ^ 16
    → IsValid c
    → read_ranges count c ≡ read_array class_range_record (min count (available c)) c
unfolding read_ranges
read_ranges_lem count c h v = elim (Bool-cases (leb (count * 6) (length (remaining c)))) [
  | inl fits ↦
      let m : count ≡ min count (available c) = omega (arith, leb→le _ _ fits) in
      or_else_ok (read_array class_range_record count)
        (read_array_upto_hack class_range_record count) c _
        (read_array_fits count c h v (leb→le _ _ fits))
      ∙ sym (read_array_fits count c h v (leb→le _ _ fits))
      ∙ ap (λ n. read_array class_range_record n c) m
  | inr short ↦
      or_else_err (read_array class_range_record count)
        (read_array_upto_hack class_range_record count) c bad_eof
        (read_array_short count c h v short)
      ∙ upto_lem count c v
]

-- The ranges that are read: none is invented and the read does not fail.
pub read_range_vec_lem :
    (count : ℕ) (c : ReadCtxt)
    → count < 2 ^ 16
    → IsValid c
    → read_range_vec count c
      ≡ ok (
        items 6 class_range_value (min count (available c)) (remaining c),
        advance c (min count (available c) * 6),
      )
unfolding read_range_vec read_vec
read_range_vec_lem count c h v =
    let n = min count (available c) in
    let fits : n * 6 ≤ length (remaining c) = omega arith in
    rw (read_ranges_lem count c h v) (
      read_vec-Fixed class_range_record class_range_value range-Exact n (omega arith) c v
      ∙ rw (le→leb (n * 6) (length (remaining c)) fits)
          (ap (λ rs. ok (rs, advance c (n * 6))) (items-take 6 class_range_value n (remaining c))))

abbrev pub class_range_bytes : ClassRangeRecord → List ℕ
class_range_bytes r =
    be_bytes 2 r.start_glyph ++ (be_bytes 2 r.end_glyph ++ be_bytes 2 r.class_value)

abbrev pub ranges_bytes : List ClassRangeRecord → List ℕ
ranges_bytes [] = []
ranges_bytes (r ∷ rs) = class_range_bytes r ++ ranges_bytes rs

-- The fields of a range are numbers of 16 bits.
abbrev pub IsRange : ClassRangeRecord → Type 0
IsRange r = (r.start_glyph < 2 ^ 16) × (r.end_glyph < 2 ^ 16) × (r.class_value < 2 ^ 16)

range_value : (r : ClassRangeRecord) → IsRange r → class_range_value (class_range_bytes r) ≡ r
range_value r (a, b, d) =
    ap class_range_of (λ i.
      (word_value r.start_glyph a i, word_value r.end_glyph b i, word_value r.class_value d i))

pub items-ranges :
    (rs : List ClassRangeRecord) (rest : List ℕ)
    → All IsRange rs
    → items 6 class_range_value (length rs) (ranges_bytes rs ++ rest) ≡ rs
items-ranges [] rest h = refl
items-ranges (r ∷ rs) rest (h, hs) =
    ap₂ (λ x xs. x ∷ xs) (range_value r h) (items-ranges rs rest hs)

pub length-ranges_bytes : (rs : List ClassRangeRecord) → length (ranges_bytes rs) ≡ length rs * 6
length-ranges_bytes [] = refl
length-ranges_bytes (r ∷ rs) = omega (arith, length-ranges_bytes rs)
