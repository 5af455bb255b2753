-- ===== src/Woff2/Directory/RoundTrip.antt =====
-- src/woff2.rs: reading a table directory from stored bytes. An entry has a transform length where
-- the code asks for one: for glyf and loca in every version, also in version 3, the null transform,
-- where the WOFF2 specification stores none.
use allsorts.Base.{ℕ, suc, ◌+◌, ◌/◌, ◌*◌, ◌%◌, ◌^◌, ◌<◌, ◌≡◌, refl, ap, ◌∙◌, sym, arith, bit_and}
use allsorts.Base.{List, [], ◌∷◌, ◌++◌, Option, none, some, get_elem?, length, All, subst}
use allsorts.Base.{◌==◌, ◌&&◌, ◌||◌, not, if◌then◌else◌, Bool, true, false}
use allsorts.Base.Bits.{bit_and_low6, bit_and_high2}
use allsorts.Binary.Scope.{usize_add}
use allsorts.Binary.Read.{ReadCtxt, IsValid, remaining, advance, pure, read_u8, read_u32be}
use allsorts.Binary.Read.Remaining.{Reads, Reads->>=, Reads-map, Reads-pure}
use allsorts.Binary.Read.Values.{be_value}
use allsorts.Binary.Read.Fixed.{Fixed-Reads, read_u8-Fixed, read_u32be-Fixed}
use allsorts.Binary.Write.{be_bytes}
use allsorts.Error.{ok}
use allsorts.Tag.{glyf, loca, hmtx}
use allsorts.Woff2.KnownTags.{known_table_tags}
use allsorts.Woff2.Base128.{read_base128}
use allsorts.Woff2.Base128.Digits.{digits_of, digit_bytes}
use allsorts.Woff2.Base128.RoundTrip.{read_base128-digits_of}
use allsorts.Woff2.Directory.{
  TableDirectoryEntry, known_tag, read_tag, read_some, read_transform_length, read_entry,
  entry_length, read_entries, read_table_directory,
}

-- An entry as a file holds it: the flag byte, and the values that follow it.
pub record StoredEntry : Type 0 where
  pub flags : ℕ
  pub tag : ℕ
  pub orig_length : ℕ
  pub transform_length : Option ℕ

-- A length follows for `glyf` and `loca` whatever the version is, and for a transformed table.
abbrev pub has_transform_length : ℕ → ℕ → Bool
has_transform_length flags tag = tag == glyf || tag == loca || not (flags / 64 == 0)

abbrev pub IsTransformLength : Bool → Option ℕ → Type 0
IsTransformLength true (some n) = n < 2 ^ 32
IsTransformLength true none = ⊥
IsTransformLength false (some n) = ⊥
IsTransformLength false none = Unit {0}

abbrev pub IsTag : Bool → ℕ → ℕ → Type 0
IsTag true flags tag = tag < 2 ^ 32
IsTag false flags tag = get_elem? known_table_tags (flags % 64) ≡ some tag

pub record IsStored (e : StoredEntry) : Type 0 where
  pub is_byte : e.flags < 256
  pub is_tag : IsTag (e.flags % 64 == 63) e.flags e.tag
  pub is_length : e.orig_length < 2 ^ 32
  pub is_transform : IsTransformLength (has_transform_length e.flags e.tag) e.transform_length

abbrev pub base128_bytes : ℕ → List ℕ
base128_bytes n = digit_bytes (digits_of n)

abbrev pub tag_bytes : Bool → ℕ → List ℕ
tag_bytes follows tag = if follows then be_bytes 4 tag else []

abbrev pub transform_bytes : Option ℕ → List ℕ
transform_bytes none = []
transform_bytes (some n) = base128_bytes n

abbrev pub stored_bytes : StoredEntry → List ℕ
stored_bytes e =
    (e.flags ∷ [])
    ++ (tag_bytes (e.flags % 64 == 63) e.tag
        ++ (base128_bytes e.orig_length ++ transform_bytes e.transform_length))

-- The entry that stands at an offset of the decompressed data.
abbrev pub entry_at : ℕ → StoredEntry → TableDirectoryEntry
entry_at offset e = record {
  tag = e.tag;
  offset = offset;
  orig_length = e.orig_length;
  transform_length = e.transform_length;
}

length-digit_bytes : (ds : List ℕ) → length (digit_bytes ds) ≡ length ds
length-digit_bytes [] = refl
length-digit_bytes (d ∷ []) = refl
length-digit_bytes (d ∷ e ∷ ds) = ap suc (length-digit_bytes (e ∷ ds))

base128_Reads : (n : ℕ) → n < 2 ^ 32 → Reads read_base128 (base128_bytes n) n
base128_Reads n h c rest v e =
    read_base128-digits_of n c rest h v e
    ∙ ap (λ k. ok (n, advance c k)) (sym (length-digit_bytes (digits_of n)))

byte_Reads : (b : ℕ) → Reads read_u8 (b ∷ []) b
byte_Reads b =
    let e : 0 * 256 + b ≡ b = omega arith in
    subst (λ x. Reads read_u8 (b ∷ []) x) e (Fixed-Reads read_u8 be_value (b ∷ []) read_u8-Fixed)

long_Reads : (x : ℕ) → x < 2 ^ 32 → Reads read_u32be (be_bytes 4 x) x
long_Reads x h =
    let e : be_value (be_bytes 4 x) ≡ x = omega arith in
    subst (λ y. Reads read_u32be (be_bytes 4 x) y) e
      (Fixed-Reads read_u32be be_value (be_bytes 4 x) read_u32be-Fixed)

known_Reads : (i tag : ℕ) → get_elem? known_table_tags i ≡ some tag → Reads (known_tag i) [] tag
unfolding known_table_tags
known_Reads i tag t c rest v e = rw t (Reads-pure tag c rest v e)

tag_Reads :
    (follows : Bool) (flags tag : ℕ)
    → IsTag follows flags tag
    → Reads (if follows then read_u32be else known_tag (flags % 64)) (tag_bytes follows tag) tag
tag_Reads true flags tag t = long_Reads tag t
tag_Reads false flags tag t = known_Reads (flags % 64) tag t

read_tag-Reads :
    (flags tag : ℕ)
    → flags < 256
    → IsTag (flags % 64 == 63) flags tag
    → Reads (read_tag flags) (tag_bytes (flags % 64 == 63) tag) tag
unfolding read_tag
read_tag-Reads flags tag h t = rw (bit_and_low6 flags h) (tag_Reads (flags % 64 == 63) flags tag t)

-- The arms for the versions 3 and 1 are never taken: the version is a multiple of 64.
arms :
    (is_glyf is_loca is_hmtx null : Bool)
    → (if (false && is_glyf) || (false && is_loca)
        then pure none
        else if is_glyf || (is_loca || (false && is_hmtx))
        then read_some
        else if null
        then pure none
        else read_some)
      ≡ (if is_glyf || is_loca || not null then read_some else pure none)
arms true is_loca is_hmtx null = refl
arms false true is_hmtx null = refl
arms false false is_hmtx true = refl
arms false false is_hmtx false = refl

-- What the match comes to.
read_transform_length_lem :
    (flags tag : ℕ)
    → read_transform_length (flags / 64 * 64) tag
      ≡ (if has_transform_length flags tag then read_some else pure none)
unfolding read_transform_length
read_transform_length_lem flags tag =
    let three : (flags / 64 * 64 == 3) ≡ false = ground arith in
    let one : (flags / 64 * 64 == 1) ≡ false = ground arith in
    let null : (flags / 64 * 64 == 0) ≡ (flags / 64 == 0) = ground arith in
    rw (three, one, null) (arms (tag == glyf) (tag == loca) (tag == hmtx) (flags / 64 == 0))

-- For every flag byte and tag, `read_transform_length` reads a length from the input where the
-- table is glyf or loca, whatever its version is, or where the two version bits of the flag byte
-- are not zero, and reads nothing otherwise.
pub read_transform_length-has_transform_length :
    (flags tag : ℕ)
    → flags < 256
    → read_transform_length (bit_and flags 0xc0) tag
      ≡ (if has_transform_length flags tag then read_some else pure none)
read_transform_length-has_transform_length flags tag h =
    rw (bit_and_high2 flags h) (read_transform_length_lem flags tag)

length_Reads :
    (follows : Bool) (n : Option ℕ)
    → IsTransformLength follows n
    → Reads (if follows then read_some else pure none) (transform_bytes n) n
length_Reads true (some n) t = Reads-map read_base128 some (base128_bytes n) n (base128_Reads n t)
length_Reads true none t = elim t [ ]
length_Reads false (some n) t = elim t [ ]
length_Reads false none t = Reads-pure none

transform_Reads :
    (flags tag : ℕ) (n : Option ℕ)
    → flags < 256
    → IsTransformLength (has_transform_length flags tag) n
    → Reads (read_transform_length (bit_and flags 0xc0) tag) (transform_bytes n) n
transform_Reads flags tag n h t =
    rw (bit_and_high2 flags h, read_transform_length_lem flags tag)
      (length_Reads (has_transform_length flags tag) n t)

entry_Reads :
    (offset : ℕ) (e : StoredEntry)
    → IsStored e
    → Reads (read_entry offset) (stored_bytes e) (entry_at offset e)
unfolding read_entry
entry_Reads offset e s =
    Reads->>= read_u8 _ (e.flags ∷ []) _ e.flags (entry_at offset e) (byte_Reads e.flags) (
      Reads->>= (read_tag e.flags) _ (tag_bytes (e.flags % 64 == 63) e.tag) _ e.tag
        (entry_at offset e) (read_tag-Reads e.flags e.tag s.is_byte s.is_tag)
        (Reads->>= read_base128 _ (base128_bytes e.orig_length) _ e.orig_length (entry_at offset e)
          (base128_Reads e.orig_length s.is_length)
          (Reads-map (read_transform_length (bit_and e.flags 0xc0) e.tag)
            (λ n. record {
              tag = e.tag;
              offset = offset;
              orig_length = e.orig_length;
              transform_length = n;
            })
            (transform_bytes e.transform_length) e.transform_length
            (transform_Reads e.flags e.tag e.transform_length s.is_byte s.is_transform))))

abbrev pub directory_bytes : List StoredEntry → List ℕ
directory_bytes [] = []
directory_bytes (e ∷ es) = stored_bytes e ++ directory_bytes es

-- Each table stands after those before it.
abbrev pub entries_from : ℕ → List StoredEntry → List TableDirectoryEntry
entries_from offset [] = []
entries_from offset (e ∷ es) =
    entry_at offset e ∷ entries_from (usize_add offset (entry_length (entry_at offset e))) es

entries_Reads :
    (es : List StoredEntry) (offset : ℕ)
    → All IsStored es
    → Reads (read_entries (length es) offset) (directory_bytes es) (entries_from offset es)
unfolding read_entries
entries_Reads [] offset s = Reads-pure []
entries_Reads (e ∷ es) offset (s, ss) =
    let next = usize_add offset (entry_length (entry_at offset e)) in
    Reads->>= (read_entry offset) _ (stored_bytes e) (directory_bytes es) (entry_at offset e)
      (entries_from offset (e ∷ es)) (entry_Reads offset e s)
      (Reads-map (read_entries (length es) next) (λ entries. entry_at offset e ∷ entries)
        (directory_bytes es) (entries_from next es) (entries_Reads es next ss))

-- For a valid context whose remaining bytes begin with a stored WOFF2 table directory (flag bytes,
-- tags of 32 bits or known by their index, lengths below 2 ^ 32, a transform length exactly for
-- glyf, loca and transformed tables), `read_table_directory` reads every entry, each with the sum
-- of the lengths before it as its offset, and stops behind the last one.
pub read_table_directory-directory_bytes :
    (es : List StoredEntry) (c : ReadCtxt) (rest : List ℕ)
    → All IsStored es
    → IsValid c
    → remaining c ≡ directory_bytes es ++ rest
    → read_table_directory (length es) c
      ≡ ok (entries_from 0 es, advance c (length (directory_bytes es)))
read_table_directory-directory_bytes es c rest s v e = entries_Reads es 0 s c rest v e
