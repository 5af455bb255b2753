-- ===== src/Layout/ClassDef/RoundTrip.antt =====
-- src/layout.rs: reading a class definition, from stored bytes of either format and from any bytes.
use allsorts.Base.{ℕ, ◌+◌, ◌*◌, ◌^◌, ◌≤◌, ◌<◌, ◌≡◌, refl, ap, ◌∙◌, arith, min, ◌⊎◌, inl, inr}
use allsorts.Base.{List, ◌++◌, length, All, ◌==◌, Bool-cases, length-append}
use allsorts.Binary.Read.{ReadCtxt, IsValid, remaining, advance, read_u16be}
use allsorts.Binary.Read.Remaining.{
  Reads, Reads->>=, Reads-map, remaining_after, front_fits, advance-IsValid,
}
use allsorts.Binary.Read.Values.{be_value, read_unchecked_u16be-Exact}
use allsorts.Binary.Read.Fixed.{read_u16be-Fixed}
use allsorts.Binary.Read.Safety.{
  IsSafe, IsSafe->>=, IsSafe-pure, IsSafe-fail, IsSafe-u16be, Fixed-IsSafe, Follows,
  Follows-advance,
}
use allsorts.Binary.Unchecked.{u16be}
use allsorts.Binary.Vector.{read_vec, read_vec-IsSafe}
use allsorts.Binary.Write.{be_bytes}
use allsorts.Error.{ok, bad_version, Ends}
use allsorts.Layout.ClassDef.{
  ClassRangeRecord, ClassDef, format1, format2, read_format, read_class_def, read_range_vec,
}
use allsorts.Layout.Words.{words_bytes, word_Reads, words_Reads}
use allsorts.Layout.ClassDef.Ranges.{
  available, read_range_vec_lem, ranges_bytes, IsRange, items-ranges, length-ranges_bytes,
}

abbrev pub format1_bytes : ℕ → List ℕ → List ℕ
format1_bytes start_glyph class_values =
    be_bytes 2 1
    ++ (be_bytes 2 start_glyph ++ (be_bytes 2 (length class_values) ++ words_bytes class_values))

format1_Reads :
    (start : ℕ) (values : List ℕ)
    → start < 2 ^ 16
    → length values < 2 ^ 16
    → All (λ v. v < 2 ^ 16) values
    → Reads read_class_def (format1_bytes start values) (format1 start values)
unfolding read_class_def read_format
format1_Reads start values hs hl hv =
    Reads->>= read_u16be _ (be_bytes 2 1)
      (be_bytes 2 start ++ (be_bytes 2 (length values) ++ words_bytes values)) 1
      (format1 start values) (word_Reads 1 (omega arith))
      (Reads->>= read_u16be _ (be_bytes 2 start) (be_bytes 2 (length values) ++ words_bytes values)
        start (format1 start values) (word_Reads start hs)
        (Reads->>= read_u16be _ (be_bytes 2 (length values)) _ (length values)
          (format1 start values) (word_Reads (length values) hl)
          (Reads-map (read_vec u16be (length values)) (format1 start) (words_bytes values) values
            (words_Reads values hv hl))))

-- On a valid context that begins with a class definition of format 1 with a start glyph, a count
-- and classes of 16 bits, `read_class_def` gives the start glyph and the classes and stops behind
-- them.
pub read_class_def-format1_bytes :
    (start_glyph : ℕ) (class_values : List ℕ) (c : ReadCtxt) (rest : List ℕ)
    → start_glyph < 2 ^ 16
    → length class_values < 2 ^ 16
    → All (λ v. v < 2 ^ 16) class_values
    → IsValid c
    → remaining c ≡ format1_bytes start_glyph class_values ++ rest
    → read_class_def c
      ≡ ok (
        format1 start_glyph class_values,
        advance c (length (format1_bytes start_glyph class_values)),
      )
read_class_def-format1_bytes start values c rest hs hl hv v e =
    format1_Reads start values hs hl hv c rest v e

-- The ranges that are stored are those that are read, when the count is theirs or what follows
-- them is too short for another range.
ranges_read :
    (count : ℕ) (rs : List ClassRangeRecord) (c : ReadCtxt) (rest : List ℕ)
    → count < 2 ^ 16
    → length rs ≤ count
    → (count ≡ length rs) ⊎ (length rest < 6)
    → All IsRange rs
    → IsValid c
    → remaining c ≡ ranges_bytes rs ++ rest
    → read_range_vec count c ≡ ok (rs, advance c (length rs * 6))
ranges_read count rs c rest hc hl hk hr v e =
    let n : min count (available c) ≡ length rs = capped hk in
    read_range_vec_lem count c hc v ∙ rw (n, e, items-ranges rs rest hr) refl
  where
    capped : (count ≡ length rs) ⊎ (length rest < 6) → min count (available c) ≡ length rs
    capped (inl h) =
        omega (arith, ap length e, length-append (ranges_bytes rs) rest, length-ranges_bytes rs)
    capped (inr h) =
        omega (arith, ap length e, length-append (ranges_bytes rs) rest, length-ranges_bytes rs)

-- On a valid context that begins with a class definition of format 2 whose fields have 16 bits, and
-- whose count is either the number of the ranges or larger with fewer than six bytes behind them,
-- `read_class_def` gives exactly the stored ranges and stops behind them.
pub read_class_def-ranges_bytes :
    (count : ℕ) (rs : List ClassRangeRecord) (c : ReadCtxt) (rest : List ℕ)
    → count < 2 ^ 16
    → length rs ≤ count
    → (count ≡ length rs) ⊎ (length rest < 6)
    → All IsRange rs
    → IsValid c
    → remaining c ≡ be_bytes 2 2 ++ (be_bytes 2 count ++ (ranges_bytes rs ++ rest))
    → read_class_def c ≡ ok (format2 rs, advance c (4 + length rs * 6))
unfolding read_class_def read_format
read_class_def-ranges_bytes count rs c rest hc hl hk hr v e =
    let h1 = word_Reads 2 (omega arith) c _ v e in
    let v1 = advance-IsValid c 2 v (front_fits c (be_bytes 2 2) _ e) in
    let e1 = remaining_after c (be_bytes 2 2) _ e in
    let h2 = word_Reads count hc (advance c 2) _ v1 e1 in
    let v2 =
      advance-IsValid (advance c 2) 2 v1 (front_fits (advance c 2) (be_bytes 2 count) _ e1) in
    let e2 = remaining_after (advance c 2) (be_bytes 2 count) _ e1 in
    let h3 = ranges_read count rs (advance (advance c 2) 2) rest hc hl hk hr v2 e2 in
    let k : c.offset + 2 + 2 + length rs * 6 ≡ c.offset + (4 + length rs * 6) = omega arith in
    rw (h1, h2, h3) (ap (λ o. ok (format2 rs, record c { offset = o })) k)

range_vec-IsSafe : (count : ℕ) → count < 2 ^ 16 → IsSafe (read_range_vec count)
range_vec-IsSafe count h c v =
    rw (read_range_vec_lem count c h v)
      (Follows-advance c (min count (available c) * 6) v (omega arith))

format-IsSafe : (format : ℕ) → IsSafe (read_format format)
unfolding read_format
format-IsSafe format = elim (Bool-cases (format == 1)) [
  | inl a ↦ rw a (
      IsSafe->>= read_u16be _ (Fixed-IsSafe read_u16be 2 be_value read_u16be-Fixed) (λ start.
        IsSafe-u16be _ (λ n h.
          IsSafe->>= (read_vec u16be n) _
            (read_vec-IsSafe u16be be_value read_unchecked_u16be-Exact n (omega arith))
            (λ values. IsSafe-pure (format1 start values)))))
  | inr a ↦ rw a (elim (Bool-cases (format == 2)) [
    | inl b ↦ rw b (
        IsSafe-u16be _ (λ n h.
          IsSafe->>= (read_range_vec n) _ (range_vec-IsSafe n h) (λ rs. IsSafe-pure (format2 rs))))
    | inr b ↦ rw b (IsSafe-fail ClassDef bad_version)
  ])
]

-- On every valid context `read_class_def` ends in an error or in a class definition with a valid
-- context in the same scope, no further back; it neither panics nor reads out of bounds.
pub read_class_def-Ends : (c : ReadCtxt) → IsValid c → Ends (λ r. Follows c r.1) (read_class_def c)
unfolding read_class_def
read_class_def-Ends =
    IsSafe->>= read_u16be read_format (Fixed-IsSafe read_u16be 2 be_value read_u16be-Fixed)
      format-IsSafe
