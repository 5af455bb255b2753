-- ===== src/Lib.antt =====
-- A model of the binary layer of allsorts, of font structures that stand directly on it, and of the
-- core of text shaping: the reader and the writer of big-endian data, the glyph table with its offsets
-- and its subsets, the character map, table checksums, tags, the Mac OS Roman tables and the number
-- formats, tables and directory of WOFF2; class definitions, coverages and glyph definitions; the
-- matching of contexts, substitutions of one glyph by others and of several by a ligature, and the
-- joining of Arabic and Syriac letters.
--
-- The parts and the files that model them, with paths from the repository's root:
--
--   src/binary.rs               Binary.antt: alignment.
--   src/binary/read.rs          Binary/Scope (ReadScope), Binary/Read (ReadCtxt and the primitive
--                               reads), Binary/Unchecked (ReadUnchecked types, read_array),
--                               Binary/Array (ReadArray and its iterator), Binary/Vector (an array
--                               that is read and collected at once).
--   src/binary/write.rs         Binary/Write: the contexts, the primitive writers, placeholders.
--   src/error.rs                Error.antt: the errors, and what a call ends in.
--   src/checksum.rs             Checksum.antt.
--   src/tables/loca.rs          Loca.antt, Loca/Read and Loca/Write.
--   src/tables/cmap.rs          Cmap (data and reading), Cmap/Map (map_glyph), Cmap/Owned (the module
--                               owned and to_owned), Cmap/Mappings.
--   src/tables/glyf.rs          Glyf (data), Glyf/SimpleGlyphFlag, Glyf/CompositeGlyphFlag, Glyf/Read,
--                               Glyf/Write, Glyf/Table (the table with its offsets),
--                               Glyf/Subset and Glyf/Bounds (bounding boxes).
--   src/tag.rs                  Tag.antt and Tag/Text.
--   src/layout.rs               Layout/ClassDef and Layout/Coverage; the table GDEF in Gdef and
--                               Gdef/Read; the substitution sub-tables in Gsub.
--   src/gdef.rs                 Gdef.antt: the classes of a glyph, which Context asks for.
--   src/context.rs              Context.antt: lookup flags, which glyphs a lookup passes over, the
--                               searches among the others, and the match of a context.
--   src/gsub.rs                 Gsub/Glyph (RawGlyph), Gsub (single and alternate substitution),
--                               Gsub/Multiple, Gsub/Lookup (its loop over a stretch of glyphs),
--                               Gsub/Ligature, which matches with Context, and Gsub/Ligature/Lookup
--                               (the loop of ligatures), Gsub/Fraction (find_fraction).
--   src/scripts/arabic.rs       Scripts/Joining (the loop that both scripts run), Scripts/Arabic.
--   src/scripts/syriac.rs       Scripts/Syriac.
--   src/macroman.rs             Macroman.antt.
--   src/woff2.rs                Woff2/Base128, Woff2/Packed, Woff2/Bits, Woff2/Coordinates,
--                               Woff2/EndPoints, Woff2/Header and Woff2/Directory.
--   src/woff2/lut.rs            Woff2/Lut and Woff2/KnownTags; dx and dy are in Woff2/Coordinates.
--
-- The parts of shaping stand on each other: a lookup keeps or passes over a glyph by the class that GDEF
-- gives it (Context/Filter), a ligature matches its components by a search of Context and is then
-- applied to the glyphs themselves, and both meet in Gsub/Ligature/Apply. Context/Slots reads a glyph
-- table as a list of tests, Scripts/Joining/Forms describes the forms of letters without indices, and
-- Gsub/Ligature/Components the glyphs that a ligature takes and leaves, and Scripts/Syriac/Rule the rule for
-- an alaph at the end of a word: they describe what the loops over indices are compared with.
--
-- The glyph table is read between the offsets of loca: Glyf/Table takes what Loca/Read gives, Glyf/Subset
-- takes the records that Glyf/Table gives. A character map that is read refers to the bytes of the font, its conversion in Cmap/Owned holds
-- lists: Cmap/Same is about the two together.
--
-- The modules below these hold their lemmas: Read/Values, Read/Fixed and Read/Remaining are about what
-- a read takes and gives, Read/Safety about where it can end, Write/Values and Write/Fill about what a
-- write leaves. Base.antt and its children have the lists, tests, bit laws and integers that all
-- parts share. Tests.antt and its children run the model and apply the theorems to concrete inputs.
--
-- How state and results are modelled. A slice of bytes is a list of numbers below 256. A function on
-- `&mut ReadCtxt` is a Reader: it takes the context and returns the new one with its result; a call
-- that fails returns no context. A call ends in a value, an error, a panic or, in unsafe code, an
-- access out of bounds. A writer takes any WriteContext, which is a record of its state and its
-- three operations, as the trait has them. An object of the type parameter `T` of an array is a
-- record of its size and its unchecked read, and the laws of a generic array take as a hypothesis
-- that this read takes its size in bytes and gives a value of them. Overflow is that of a release build: sums of usize wrap at 2 ^ 64, those of 16 and 32
-- bits at their width, and shifts drop bits. Positions inside a slice do not wrap, since a slice has
-- fewer than 2 ^ 63 bytes. Signed numbers are integers with the two's complement written out.
--
-- Vectors of glyphs are lists, and a method that changes one returns the new list; an index out of range
-- is a panic. The tables that the source shares by reference counts are held by value, since no modelled
-- code changes them. The package `unicode_joining_type` is a parameter of the scripts: a type of joining
-- types with a test of equality, the types that the code names, and the type of a character; nothing is
-- assumed of them. The method `merge` of the data of a script is a parameter of ligatures.
--
-- Loops are structural, or on fuel: the base-128 loop has the five rounds of the source; the loops
-- over iterators have one round more than the array has elements; the binary search has one for each
-- element; the search for the next glyph and the loops over the glyphs of a ligature or of a stretch
-- have one for each glyph, and one more; the components of a glyph have one for each byte of its
-- scope; the subset of a glyph table has one for each number asked for and one for each number of 16
-- bits, and one more.
--
-- What is not modelled: arrays of dependent types and caches of the reader; brotli and zlib, which are
-- third-party code; the writing of the character map; the CFF, GPOS and bitmap tables; of GSUB the
-- lookup lists, the contextual substitutions and the reading of sub-tables; of the scripts all but the
-- joining of Arabic and Syriac letters; the subsetting of whole fonts; printing of errors.
pub mod Base
pub mod Error
pub mod Binary
pub mod Checksum
pub mod Cmap
pub mod Glyf
pub mod Loca
pub mod Tag
pub mod Layout
pub mod Gdef
pub mod Context
pub mod Gsub
pub mod Scripts
pub mod Woff2
pub mod Macroman
pub mod Tests
