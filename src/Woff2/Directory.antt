-- ===== src/Woff2/Directory.antt =====
-- src/woff2.rs, the table directory: an entry names its table by an index or by a tag, and the
-- place of a table follows from the lengths of those before it.
pub mod RoundTrip
use allsorts.Base.{ℕ, zero, suc, ◌+◌, ◌%◌, ◌^◌, bit_and, ◌==◌, ◌&&◌, ◌||◌, if◌then◌else◌}
use allsorts.Base.{List, [], ◌∷◌, Option, none, some, get_elem?}
use allsorts.Binary.Scope.{usize_add}
use allsorts.Binary.Read.{Reader, pure, lift, ◌>>=◌, read_u8, read_u32be}
use allsorts.Error.{ok, panic}
use allsorts.Tag.{glyf, loca, hmtx}
use allsorts.Woff2.KnownTags.{known_table_tags}
use allsorts.Woff2.Base128.{read_base128}

pub record TableDirectoryEntry : Type 0 where
  pub tag : ℕ
  pub offset : ℕ
  pub orig_length : ℕ
  pub transform_length : Option ℕ

-- `KNOWN_TABLE_TAGS[i]`
abbrev pub known_tag : ℕ → Reader ℕ
known_tag i = elim (get_elem? known_table_tags i) [ none ↦ lift panic | some tag ↦ pure tag ]

unfoldable pub read_tag : ℕ → Reader ℕ
read_tag flags = if bit_and flags 0x3f == 63 then read_u32be else known_tag (bit_and flags 0x3f)

abbrev pub read_some : Reader (Option ℕ)
read_some = read_base128 >>= λ n. pure (some n)

-- The arms of the match on the version and the tag, in order.
unfoldable pub read_transform_length : ℕ → ℕ → Reader (Option ℕ)
read_transform_length version tag =
    if (version == 3 && tag == glyf) || (version == 3 && tag == loca)
    then pure none
    else if tag == glyf || (tag == loca || (version == 1 && tag == hmtx))
    then read_some
    else if version == 0
    then pure none
    else read_some

unfoldable pub read_entry : ℕ → Reader TableDirectoryEntry
read_entry offset = do
  flags ← read_u8
  tag ← read_tag flags
  orig_length ← read_base128
  transform_length ← read_transform_length (bit_and flags 0xc0) tag
  pure (record {
    tag = tag;
    offset = offset;
    orig_length = orig_length;
    transform_length = transform_length;
  })

-- `TableDirectoryEntry::length`
abbrev pub entry_length : TableDirectoryEntry → ℕ
entry_length entry = elim entry.transform_length [ none ↦ entry.orig_length | some n ↦ n ]

-- The loop over the tables, from the offset it has reached.
unfoldable pub read_entries : ℕ → ℕ → Reader (List TableDirectoryEntry)
read_entries zero offset = pure []
read_entries (suc num_tables) offset = do
  entry ← read_entry offset
  entries ← read_entries num_tables (usize_add offset (entry_length entry))
  pure (entry ∷ entries)

abbrev pub read_table_directory : ℕ → Reader (List TableDirectoryEntry)
read_table_directory num_tables = read_entries num_tables 0
