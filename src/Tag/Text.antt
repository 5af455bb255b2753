-- ===== src/Tag/Text.antt =====
-- src/tag.rs: tags as text. A string is the list of its code points.
use allsorts.Base.{ℕ, zero, suc, ◌+◌, ◌-◌, ◌/◌, ◌%◌, ◌^◌, ◌<◌, ◌≤◌, ◌≡◌, refl, ap, ◌∙◌, arith}
use allsorts.Base.{
  List, [], ◌∷◌, ◌++◌, length, All, take, ltb, leb, ◌==◌, ◌&&◌, ◌||◌, not, Bool, true,
  if◌then◌else◌,
}
use allsorts.Base.{leb→le, Bool-cases, inl, inr, false}
use allsorts.Binary.Bytes.{push_byte, fold_bytes, fold_bytes-from_be}
use allsorts.Binary.Read.{IsByte}
use allsorts.Binary.Read.Values.{be_value}
use allsorts.Binary.Write.{be_bytes}
use allsorts.Error.{Outcome, ok, err, ParseError, bad_value}

-- The bytes of a code point in UTF-8
abbrev pub utf8_len : ℕ → ℕ
utf8_len c = if ltb c 0x80 then 1 else if ltb c 0x800 then 2 else if ltb c 0x10000 then 3 else 4

-- `str::len`
abbrev pub str_len : List ℕ → ℕ
str_len [] = 0
str_len (c ∷ s) = utf8_len c + str_len s

abbrev pub is_ascii : ℕ → Bool
is_ascii c = ltb c 0x80

abbrev pub is_ascii_control : ℕ → Bool
is_ascii_control c = ltb c 0x20 || c == 0x7f

-- `while count < 4`, with the rounds that are left
abbrev pub pad_tag : ℕ → ℕ → ℕ
pad_tag zero tag = tag
pad_tag (suc left) tag = pad_tag left (push_byte tag 0x20)

unfoldable pub tag_chars : List ℕ → ℕ → ℕ → Outcome ParseError ℕ
tag_chars [] tag count = ok (pad_tag (4 - count) tag)
tag_chars (c ∷ s) tag count =
    let rest = tag_chars s (push_byte tag c) (count + 1) in
    if not (is_ascii c) || is_ascii_control c then err bad_value else rest

unfoldable pub from_string : List ℕ → Outcome ParseError ℕ
unfolding tag_chars
from_string s = if ltb 4 (str_len s) then err bad_value else tag_chars s 0 0

abbrev pub is_tag_char : ℕ → Bool
is_tag_char c = is_ascii c && not (is_ascii_control c)

abbrev pub all_tag_chars : List ℕ → Bool
all_tag_chars [] = true
all_tag_chars (c ∷ s) = is_tag_char c && all_tag_chars s

-- `{:x}` of one digit
abbrev pub hex_digit : ℕ → ℕ
hex_digit d = if ltb d 10 then 48 + d else 87 + d

-- `{:08x}`, from the digits that are left
abbrev pub hex_digits : ℕ → ℕ → List ℕ
hex_digits zero x = []
hex_digits (suc left) x = hex_digit (x / 16 ^ left % 16) ∷ hex_digits left x

-- `Display for DisplayTag`
unfoldable pub display_tag : ℕ → List ℕ
display_tag tag =
    let bytes = be_bytes 4 tag in if all_tag_chars bytes then bytes else 48 ∷ 120 ∷ hex_digits 8 tag

tag_chars_lem :
    (s : List ℕ) (tag count : ℕ)
    → tag_chars s tag count ≡ (
        if all_tag_chars s
        then ok (pad_tag (4 - (count + length s)) (fold_bytes tag s))
        else err bad_value)
unfolding tag_chars
tag_chars_lem [] tag count = let e : 4 - count ≡ 4 - (count + 0) = omega arith in rw e refl
tag_chars_lem (c ∷ s) tag count =
    let e : count + 1 + length s ≡ count + suc (length s) = omega arith in
    rw (tag_chars_lem s (push_byte tag c) (count + 1), e)
      (head (is_ascii c) (is_ascii_control c) (all_tag_chars s)
        (ok (pad_tag (4 - (count + suc (length s))) (fold_bytes (push_byte tag c) s))))
  where
    head :
        (a k b : Bool) (x : Outcome ParseError ℕ)
        → (if not a || k then err bad_value else if b then x else err bad_value)
          ≡ (if (a && not k) && b then x else err bad_value)
    head true true b x = refl
    head true false b x = refl
    head false k b x = refl

str_len-length : (s : List ℕ) → all_tag_chars s ≡ true → str_len s ≡ length s
str_len-length [] h = refl
str_len-length (c ∷ s) h = ground (arith, str_len-length s)

-- The four characters of a tag as text: the string, with spaces after it.
abbrev pub padded : List ℕ → List ℕ
padded s = take 4 (s ++ 32 ∷ 32 ∷ 32 ∷ 32 ∷ [])

chars_octets : (s : List ℕ) → all_tag_chars s ≡ true → All IsByte s
chars_octets [] h = tt
chars_octets (c ∷ s) h = (ground arith, chars_octets s (ground arith))

packed_chars :
    (s : List ℕ)
    → all_tag_chars s ≡ true
    → length s ≤ 4
    → pad_tag (4 - (0 + length s)) (fold_bytes 0 s) ≡ be_value (padded s)
packed_chars s h k = go s (chars_octets s h) k
  where
    four :
        (a b d e : ℕ)
        → a < 256
        → b < 256
        → d < 256
        → e < 256
        → fold_bytes 0 (a ∷ b ∷ d ∷ e ∷ []) ≡ be_value (a ∷ b ∷ d ∷ e ∷ [])
    four a b d e ha hb hd he =
        fold_bytes-from_be (a ∷ b ∷ d ∷ e ∷ []) 0 (ha, (hb, (hd, (he, tt)))) (omega arith)

    go :
        (s : List ℕ)
        → All IsByte s
        → length s ≤ 4
        → pad_tag (4 - (0 + length s)) (fold_bytes 0 s) ≡ be_value (padded s)
    go [] h k = four 32 32 32 32 (omega arith) (omega arith) (omega arith) (omega arith)
    go (a ∷ []) (ha, h) k = four a 32 32 32 ha (omega arith) (omega arith) (omega arith)
    go (a ∷ b ∷ []) (ha, (hb, h)) k = four a b 32 32 ha hb (omega arith) (omega arith)
    go (a ∷ b ∷ d ∷ []) (ha, (hb, (hd, h))) k = four a b d 32 ha hb hd (omega arith)
    go (a ∷ b ∷ d ∷ e ∷ []) (ha, (hb, (hd, (he, h)))) k = four a b d e ha hb hd he
    go (a ∷ b ∷ d ∷ e ∷ f ∷ s) h k = absurd (omega arith)

abbrev bad : Outcome ParseError ℕ
bad = err bad_value

either : (a b : Bool) (x : ℕ) → (if a then bad else bad) ≡ (if b && false then ok x else bad)
either true true x = refl
either true false x = refl
either false true x = refl
either false false x = refl

-- For every string, `from_string` is the tag of its characters with spaces behind them where it has
-- at most four characters, all printable ASCII, and a bad value otherwise.
from_string_lem :
    (s : List ℕ)
    → from_string s
      ≡ (if leb (length s) 4 && all_tag_chars s then ok (be_value (padded s)) else err bad_value)
unfolding from_string
from_string_lem s = elim (Bool-cases (all_tag_chars s)) [
  | inl chars ↦ elim (Bool-cases (leb (length s) 4)) [
    | inl fits ↦
        let few : ltb 4 (length s) ≡ false = ground arith in
        rw (str_len-length s chars, few, fits, tag_chars_lem s 0 0, chars)
          (ap ok (packed_chars s chars (leb→le (length s) 4 fits)))
    | inr long ↦
        let many : ltb 4 (length s) ≡ true = ground arith in
        rw (str_len-length s chars, many, long) refl
  ]
  | inr other ↦
      rw (tag_chars_lem s 0 0, other)
        (either (ltb 4 (str_len s)) (leb (length s) 4) (be_value (padded s)))
]

-- For a tag of 32 bits, `from_string` of what `DisplayTag` prints is the tag where its four bytes
-- are printable ASCII, and a bad value otherwise.
pub from_string-display_tag :
    (tag : ℕ)
    → tag < 2 ^ 32
    → from_string (display_tag tag)
      ≡ (if all_tag_chars (be_bytes 4 tag) then ok tag else err bad_value)
unfolding display_tag
from_string-display_tag tag h = elim (Bool-cases (all_tag_chars (be_bytes 4 tag))) [
  | inl chars ↦
      let e : be_value (be_bytes 4 tag) ≡ tag = omega arith in
      rw chars (from_string_lem (be_bytes 4 tag) ∙ rw (chars, e) refl)
  | inr other ↦ rw other (from_string_lem (48 ∷ 120 ∷ hex_digits 8 tag))
]
