-- ===== src/Woff2/KnownTags.antt =====
-- src/woff2/lut.rs: the tags that a table directory names by an index.
use allsorts.Base.{ℕ, List, [], ◌∷◌}
use allsorts.Tag.{
  cmap, head, hhea, hmtx, maxp, name, os_2, post, cvt, fpgm, glyf, loca, prep, cff, vorg, ebdt,
  eblc, gasp, hdmx, kern, ltsh, pclt, vdmx, vhea, vmtx, base, gdef, gpos, gsub, ebsc, jstf, math,
  cbdt, cblc, colr, cpal, svg, sbix, acnt, avar, bdat, bloc, bsln, cvar, fdsc, feat, fmtx, fvar,
  gvar, hsty, just, lcar, mort, morx, opbd, prop, trak, zapf, silf, glat, gloc, feat2, sill,
}

unfoldable pub known_table_tags : List ℕ
known_table_tags =
    cmap ∷ head ∷ hhea ∷ hmtx ∷ maxp ∷ name ∷ os_2 ∷ post ∷ cvt ∷ fpgm ∷ glyf ∷ loca ∷ prep ∷ cff
    ∷ vorg ∷ ebdt ∷ eblc ∷ gasp ∷ hdmx ∷ kern ∷ ltsh ∷ pclt ∷ vdmx ∷ vhea ∷ vmtx ∷ base ∷ gdef
    ∷ gpos ∷ gsub ∷ ebsc ∷ jstf ∷ math ∷ cbdt ∷ cblc ∷ colr ∷ cpal ∷ svg ∷ sbix ∷ acnt ∷ avar ∷ bdat
    ∷ bloc ∷ bsln ∷ cvar ∷ fdsc ∷ feat ∷ fmtx ∷ fvar ∷ gvar ∷ hsty ∷ just ∷ lcar ∷ mort ∷ morx
    ∷ opbd ∷ prop ∷ trak ∷ zapf ∷ silf ∷ glat ∷ gloc ∷ feat2 ∷ sill ∷ []
