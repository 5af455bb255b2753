-- ===== src/Tag.antt =====
-- src/tag.rs: tags of four bytes, and the constants that the known table tags of WOFF2 name.
pub mod Text
use allsorts.Base.{ℕ, ◌*◌, ◌^◌, ◌%◌, bit_or}

-- `((chars[3] as u32) << 0) | ((chars[2] as u32) << 8) | ...`
unfoldable pub tag_from_bytes : ℕ → ℕ → ℕ → ℕ → ℕ
tag_from_bytes c0 c1 c2 c3 =
    bit_or (bit_or (bit_or (c3 * 2 ^ 0 % 2 ^ 32) (c2 * 2 ^ 8 % 2 ^ 32)) (c1 * 2 ^ 16 % 2 ^ 32))
      (c0 * 2 ^ 24 % 2 ^ 32)

abbrev pub cmap : ℕ
cmap = 0x636d6170

abbrev pub head : ℕ
head = 0x68656164

abbrev pub hhea : ℕ
hhea = 0x68686561

abbrev pub hmtx : ℕ
hmtx = 0x686d7478

abbrev pub maxp : ℕ
maxp = 0x6d617870

abbrev pub name : ℕ
name = 0x6e616d65

abbrev pub os_2 : ℕ
os_2 = 0x4f532f32

abbrev pub post : ℕ
post = 0x706f7374

abbrev pub cvt : ℕ
cvt = 0x63767420

abbrev pub fpgm : ℕ
fpgm = 0x6670676d

abbrev pub glyf : ℕ
glyf = 0x676c7966

abbrev pub loca : ℕ
loca = 0x6c6f6361

abbrev pub prep : ℕ
prep = 0x70726570

abbrev pub cff : ℕ
cff = 0x43464620

abbrev pub vorg : ℕ
vorg = 0x564f5247

abbrev pub ebdt : ℕ
ebdt = 0x45424454

abbrev pub eblc : ℕ
eblc = 0x45424c43

abbrev pub gasp : ℕ
gasp = 0x67617370

abbrev pub hdmx : ℕ
hdmx = 0x68646d78

abbrev pub kern : ℕ
kern = 0x6b65726e

abbrev pub ltsh : ℕ
ltsh = 0x4c545348

abbrev pub pclt : ℕ
pclt = 0x50434c54

abbrev pub vdmx : ℕ
vdmx = 0x56444d58

abbrev pub vhea : ℕ
vhea = 0x76686561

abbrev pub vmtx : ℕ
vmtx = 0x766d7478

abbrev pub base : ℕ
base = 0x42415345

abbrev pub gdef : ℕ
gdef = 0x47444546

abbrev pub gpos : ℕ
gpos = 0x47504f53

abbrev pub gsub : ℕ
gsub = 0x47535542

abbrev pub ebsc : ℕ
ebsc = 0x45425343

abbrev pub jstf : ℕ
jstf = 0x4a535446

abbrev pub math : ℕ
math = 0x4d415448

abbrev pub cbdt : ℕ
cbdt = 0x43424454

abbrev pub cblc : ℕ
cblc = 0x43424c43

abbrev pub colr : ℕ
colr = 0x434f4c52

abbrev pub cpal : ℕ
cpal = 0x4350414c

abbrev pub svg : ℕ
svg = 0x53564720

abbrev pub sbix : ℕ
sbix = 0x73626978

abbrev pub acnt : ℕ
acnt = 0x61636e74

abbrev pub avar : ℕ
avar = 0x61766172

abbrev pub bdat : ℕ
bdat = 0x62646174

abbrev pub bloc : ℕ
bloc = 0x626c6f63

abbrev pub bsln : ℕ
bsln = 0x62736c6e

abbrev pub cvar : ℕ
cvar = 0x63766172

abbrev pub fdsc : ℕ
fdsc = 0x66647363

abbrev pub feat : ℕ
feat = 0x66656174

abbrev pub fmtx : ℕ
fmtx = 0x666d7478

abbrev pub fvar : ℕ
fvar = 0x66766172

abbrev pub gvar : ℕ
gvar = 0x67766172

abbrev pub hsty : ℕ
hsty = 0x68737479

abbrev pub just : ℕ
just = 0x6a757374

abbrev pub lcar : ℕ
lcar = 0x6c636172

abbrev pub mort : ℕ
mort = 0x6d6f7274

abbrev pub morx : ℕ
morx = 0x6d6f7278

abbrev pub opbd : ℕ
opbd = 0x6f706264

abbrev pub prop : ℕ
prop = 0x70726f70

abbrev pub trak : ℕ
trak = 0x7472616b

abbrev pub zapf : ℕ
zapf = 0x5a617066

abbrev pub silf : ℕ
silf = 0x53696c66

abbrev pub glat : ℕ
glat = 0x476c6174

abbrev pub gloc : ℕ
gloc = 0x476c6f63

abbrev pub feat2 : ℕ
feat2 = 0x46656174

abbrev pub sill : ℕ
sill = 0x53696c6c
