-- ===== src/Woff2/Header.antt =====
-- src/woff2.rs, `Woff2Header`: the signature and the fields of the file header.
use allsorts.Base.{ℕ, ◌^◌, ◌<◌, ◌≡◌, ◌==◌, if◌then◌else◌, refl, arith, subst, List, [], ◌++◌}
use allsorts.Binary.Read.{
  Reader, ReadCtxt, IsValid, remaining, advance, pure, fail, ◌>>=◌, ◌>>◌, check, read_u16be,
  read_u32be,
}
use allsorts.Binary.Read.Remaining.{Reads, Reads->>=, Reads-map, Reads-check}
use allsorts.Binary.Read.Values.{be_value}
use allsorts.Binary.Read.Fixed.{Fixed-Reads, read_u16be-Fixed, read_u32be-Fixed}
use allsorts.Binary.Write.{be_bytes}
use allsorts.Error.{ok, bad_version}

pub record Woff2Header : Type 0 where
  pub flavor : ℕ
  pub length : ℕ
  pub num_tables : ℕ
  pub total_sfnt_size : ℕ
  pub total_compressed_size : ℕ
  pub major_version : ℕ
  pub minor_version : ℕ
  pub meta_offset : ℕ
  pub meta_length : ℕ
  pub meta_orig_length : ℕ
  pub priv_offset : ℕ
  pub priv_length : ℕ

-- `MAGIC`
abbrev pub magic : ℕ
magic = 0x774F4632

-- The fields after the signature
unfoldable pub read_fields : Reader Woff2Header
read_fields = do
  flavor ← read_u32be
  length ← read_u32be
  num_tables ← read_u16be
  reserved ← read_u16be
  check (reserved == 0)
  total_sfnt_size ← read_u32be
  total_compressed_size ← read_u32be
  major_version ← read_u16be
  minor_version ← read_u16be
  meta_offset ← read_u32be
  meta_length ← read_u32be
  meta_orig_length ← read_u32be
  priv_offset ← read_u32be
  priv_length ← read_u32be
  pure (record {
    flavor = flavor;
    length = length;
    num_tables = num_tables;
    total_sfnt_size = total_sfnt_size;
    total_compressed_size = total_compressed_size;
    major_version = major_version;
    minor_version = minor_version;
    meta_offset = meta_offset;
    meta_length = meta_length;
    meta_orig_length = meta_orig_length;
    priv_offset = priv_offset;
    priv_length = priv_length;
  })

unfoldable pub read_header : Reader Woff2Header
unfolding read_fields
read_header =
    read_u32be >>= λ signature. (if signature == magic then read_fields else fail bad_version)

-- The fields are numbers of the widths that the format gives them.
pub record IsHeader (h : Woff2Header) : Type 0 where
  pub flavor_fits : h.flavor < 2 ^ 32
  pub length_fits : h.length < 2 ^ 32
  pub num_tables_fits : h.num_tables < 2 ^ 16
  pub total_sfnt_size_fits : h.total_sfnt_size < 2 ^ 32
  pub total_compressed_size_fits : h.total_compressed_size < 2 ^ 32
  pub major_version_fits : h.major_version < 2 ^ 16
  pub minor_version_fits : h.minor_version < 2 ^ 16
  pub meta_offset_fits : h.meta_offset < 2 ^ 32
  pub meta_length_fits : h.meta_length < 2 ^ 32
  pub meta_orig_length_fits : h.meta_orig_length < 2 ^ 32
  pub priv_offset_fits : h.priv_offset < 2 ^ 32
  pub priv_length_fits : h.priv_length < 2 ^ 32

abbrev pub fields_bytes : Woff2Header → List ℕ
fields_bytes h =
    be_bytes 4 h.flavor
    ++ (be_bytes 4 h.length
        ++ (be_bytes 2 h.num_tables
            ++ (be_bytes 2 0
                ++ (be_bytes 4 h.total_sfnt_size
                    ++ (be_bytes 4 h.total_compressed_size
                        ++ (be_bytes 2 h.major_version
                            ++ (be_bytes 2 h.minor_version
                                ++ (be_bytes 4 h.meta_offset
                                    ++ (be_bytes 4 h.meta_length
                                        ++ (be_bytes 4 h.meta_orig_length
                                            ++ (be_bytes 4 h.priv_offset
                                                ++ (be_bytes 4 h.priv_length))))))))))))

abbrev pub header_bytes : Woff2Header → List ℕ
header_bytes h = be_bytes 4 magic ++ fields_bytes h

long_Reads : (x : ℕ) → x < 2 ^ 32 → Reads read_u32be (be_bytes 4 x) x
long_Reads x h =
    let e : be_value (be_bytes 4 x) ≡ x = omega arith in
    subst (λ y. Reads read_u32be (be_bytes 4 x) y) e
      (Fixed-Reads read_u32be be_value (be_bytes 4 x) read_u32be-Fixed)

word_Reads : (x : ℕ) → x < 2 ^ 16 → Reads read_u16be (be_bytes 2 x) x
word_Reads x h =
    let e : be_value (be_bytes 2 x) ≡ x = omega arith in
    subst (λ y. Reads read_u16be (be_bytes 2 x) y) e
      (Fixed-Reads read_u16be be_value (be_bytes 2 x) read_u16be-Fixed)

fields_Reads : (h : Woff2Header) → IsHeader h → Reads read_fields (fields_bytes h) h
unfolding read_fields
fields_Reads h f =
    (Reads->>= read_u32be _ (be_bytes 4 h.flavor)
      (be_bytes 4 h.length
        ++ (be_bytes 2 h.num_tables
            ++ (be_bytes 2 0
                ++ (be_bytes 4 h.total_sfnt_size
                    ++ (be_bytes 4 h.total_compressed_size
                        ++ (be_bytes 2 h.major_version
                            ++ (be_bytes 2 h.minor_version
                                ++ (be_bytes 4 h.meta_offset
                                    ++ (be_bytes 4 h.meta_length
                                        ++ (be_bytes 4 h.meta_orig_length
                                            ++ (be_bytes 4 h.priv_offset
                                                ++ (be_bytes 4 h.priv_length))))))))))))
      h.flavor h (long_Reads h.flavor f.flavor_fits)
      (Reads->>= read_u32be _ (be_bytes 4 h.length)
        (be_bytes 2 h.num_tables
          ++ (be_bytes 2 0
              ++ (be_bytes 4 h.total_sfnt_size
                  ++ (be_bytes 4 h.total_compressed_size
                      ++ (be_bytes 2 h.major_version
                          ++ (be_bytes 2 h.minor_version
                              ++ (be_bytes 4 h.meta_offset
                                  ++ (be_bytes 4 h.meta_length
                                      ++ (be_bytes 4 h.meta_orig_length
                                          ++ (be_bytes 4 h.priv_offset
                                              ++ (be_bytes 4 h.priv_length)))))))))))
        h.length h (long_Reads h.length f.length_fits)
        (Reads->>= read_u16be _ (be_bytes 2 h.num_tables)
          (be_bytes 2 0
            ++ (be_bytes 4 h.total_sfnt_size
                ++ (be_bytes 4 h.total_compressed_size
                    ++ (be_bytes 2 h.major_version
                        ++ (be_bytes 2 h.minor_version
                            ++ (be_bytes 4 h.meta_offset
                                ++ (be_bytes 4 h.meta_length
                                    ++ (be_bytes 4 h.meta_orig_length
                                        ++ (be_bytes 4 h.priv_offset
                                            ++ (be_bytes 4 h.priv_length))))))))))
          h.num_tables h (word_Reads h.num_tables f.num_tables_fits)
          (Reads->>= read_u16be _ (be_bytes 2 0)
            (be_bytes 4 h.total_sfnt_size
              ++ (be_bytes 4 h.total_compressed_size
                  ++ (be_bytes 2 h.major_version
                      ++ (be_bytes 2 h.minor_version
                          ++ (be_bytes 4 h.meta_offset
                              ++ (be_bytes 4 h.meta_length
                                  ++ (be_bytes 4 h.meta_orig_length
                                      ++ (be_bytes 4 h.priv_offset
                                          ++ (be_bytes 4 h.priv_length)))))))))
            0 h (word_Reads 0 (omega arith))
            (Reads->>= (check (0 == 0)) _ []
              (be_bytes 4 h.total_sfnt_size
                ++ (be_bytes 4 h.total_compressed_size
                    ++ (be_bytes 2 h.major_version
                        ++ (be_bytes 2 h.minor_version
                            ++ (be_bytes 4 h.meta_offset
                                ++ (be_bytes 4 h.meta_length
                                    ++ (be_bytes 4 h.meta_orig_length
                                        ++ (be_bytes 4 h.priv_offset
                                            ++ (be_bytes 4 h.priv_length)))))))))
              tt h (Reads-check (0 == 0) refl)
              (Reads->>= read_u32be _ (be_bytes 4 h.total_sfnt_size)
                (be_bytes 4 h.total_compressed_size
                  ++ (be_bytes 2 h.major_version
                      ++ (be_bytes 2 h.minor_version
                          ++ (be_bytes 4 h.meta_offset
                              ++ (be_bytes 4 h.meta_length
                                  ++ (be_bytes 4 h.meta_orig_length
                                      ++ (be_bytes 4 h.priv_offset
                                          ++ (be_bytes 4 h.priv_length))))))))
                h.total_sfnt_size h (long_Reads h.total_sfnt_size f.total_sfnt_size_fits)
                (Reads->>= read_u32be _ (be_bytes 4 h.total_compressed_size)
                  (be_bytes 2 h.major_version
                    ++ (be_bytes 2 h.minor_version
                        ++ (be_bytes 4 h.meta_offset
                            ++ (be_bytes 4 h.meta_length
                                ++ (be_bytes 4 h.meta_orig_length
                                    ++ (be_bytes 4 h.priv_offset ++ (be_bytes 4 h.priv_length)))))))
                  h.total_compressed_size h
                  (long_Reads h.total_compressed_size f.total_compressed_size_fits)
                  (Reads->>= read_u16be _ (be_bytes 2 h.major_version)
                    (be_bytes 2 h.minor_version
                      ++ (be_bytes 4 h.meta_offset
                          ++ (be_bytes 4 h.meta_length
                              ++ (be_bytes 4 h.meta_orig_length
                                  ++ (be_bytes 4 h.priv_offset ++ (be_bytes 4 h.priv_length))))))
                    h.major_version h (word_Reads h.major_version f.major_version_fits)
                    (Reads->>= read_u16be _ (be_bytes 2 h.minor_version)
                      (be_bytes 4 h.meta_offset
                        ++ (be_bytes 4 h.meta_length
                            ++ (be_bytes 4 h.meta_orig_length
                                ++ (be_bytes 4 h.priv_offset ++ (be_bytes 4 h.priv_length)))))
                      h.minor_version h (word_Reads h.minor_version f.minor_version_fits)
                      (Reads->>= read_u32be _ (be_bytes 4 h.meta_offset)
                        (be_bytes 4 h.meta_length
                          ++ (be_bytes 4 h.meta_orig_length
                              ++ (be_bytes 4 h.priv_offset ++ (be_bytes 4 h.priv_length))))
                        h.meta_offset h (long_Reads h.meta_offset f.meta_offset_fits)
                        (Reads->>= read_u32be _ (be_bytes 4 h.meta_length)
                          (be_bytes 4 h.meta_orig_length
                            ++ (be_bytes 4 h.priv_offset ++ (be_bytes 4 h.priv_length)))
                          h.meta_length h (long_Reads h.meta_length f.meta_length_fits)
                          (Reads->>= read_u32be _ (be_bytes 4 h.meta_orig_length)
                            (be_bytes 4 h.priv_offset ++ (be_bytes 4 h.priv_length))
                            h.meta_orig_length h
                            (long_Reads h.meta_orig_length f.meta_orig_length_fits)
                            (Reads->>= read_u32be _ (be_bytes 4 h.priv_offset)
                              (be_bytes 4 h.priv_length) h.priv_offset h
                              (long_Reads h.priv_offset f.priv_offset_fits)
                              (Reads-map read_u32be (λ x. record h { priv_length = x })
                                (be_bytes 4 h.priv_length) h.priv_length
                                (long_Reads h.priv_length f.priv_length_fits)))))))))))))))

-- On a valid context that begins with the signature of WOFF2 and the fields of a header in their
-- widths, the reserved one zero, `read_header` gives those fields and stops behind the 48 bytes.
read_header-header_bytes :
    (h : Woff2Header) (c : ReadCtxt) (rest : List ℕ)
    → IsHeader h
    → IsValid c
    → remaining c ≡ header_bytes h ++ rest
    → read_header c ≡ ok (h, advance c 48)
unfolding read_header
read_header-header_bytes h c rest f v e =
    Reads->>= read_u32be _ (be_bytes 4 magic) (fields_bytes h) magic h
      (long_Reads magic (omega arith)) (fields_Reads h f) c rest v e
