-- ===== src/Gsub/Ligature/Lookup.antt =====
-- src/gsub.rs: the ligature of a glyph, and the loop of a ligature lookup over a stretch of glyphs.
use allsorts.Base.{
  ℕ, zero, suc, ◌+◌, ◌-◌, ◌%◌, ◌&&◌, Bool, true, false, ltb, if◌then◌else◌, List, [], ◌∷◌, Option,
  none, some, length,
}
use allsorts.Binary.Scope.{usize_add, usize_mod}
use allsorts.Context.{MatchType, at, match_glyph}
use allsorts.Error.{Outcome, ok, panic, ParseError, ◌>>=◌}
use allsorts.Gdef.{GdefTable}
use allsorts.Layout.Coverage.{Coverage}
use allsorts.Gsub.{entry_of}
use allsorts.Gsub.Glyph.{RawGlyph}
use allsorts.Gsub.Ligature.{Ligature, ligature_matches, ligature_apply}

pub record LigatureSubst : Type 0 where
  pub coverage : Coverage
  pub ligaturesets : List (List Ligature)

module _ {T : Type 0} (merge : T → T → T) (m : MatchType) (t : Option GdefTable) where
  -- `for ligature in &ligatureset.ligatures`
  unfoldable pub first_ligature :
      List Ligature → ℕ → List (RawGlyph T) → Outcome ParseError (Option Ligature)
  first_ligature [] i glyphs = ok none
  first_ligature (l ∷ ligatures) i glyphs = ligature_matches merge m t l i glyphs >>= λ matched.
      elim matched [ true ↦ ok (some l) | false ↦ first_ligature ligatures i glyphs ]

  -- `ligaturesubst_would_apply`, with the glyph index at the position.
  unfoldable pub ligature_for :
      List LigatureSubst → ℕ → ℕ → List (RawGlyph T) → Outcome ParseError (Option Ligature)
  ligature_for [] glyph_index i glyphs = ok none
  ligature_for (s ∷ subtables) glyph_index i glyphs =
      entry_of s.coverage s.ligaturesets glyph_index >>= λ found. elim found [
        | none ↦ ligature_for subtables glyph_index i glyphs
        | some ligatures ↦ first_ligature ligatures i glyphs >>= λ ligature. elim ligature [
          | some l ↦ ok (some l)
          | none ↦ ligature_for subtables glyph_index i glyphs
        ]
      ]

  -- The numbers of the components removed and of the glyphs passed over, and the glyphs.
  unfoldable pub ligaturesubst :
      List LigatureSubst
      → ℕ
      → List (RawGlyph T)
      → Outcome ParseError (Option (ℕ × ℕ) × List (RawGlyph T))
  ligaturesubst subtables i glyphs = at glyphs i >>= λ g.
      ligature_for subtables g.glyph_index i glyphs >>= λ found. elim found [
        | none ↦ ok (none, glyphs)
        | some l ↦ ligature_apply merge m t l i glyphs >>= λ (ligated, skip).
            ok (some (length l.component_glyphs, skip), ligated)
      ]

  module _ (subtables : List LigatureSubst) (pred : RawGlyph T → Bool) where
    -- `while i < start + length`: the glyphs and the length at the end.
    unfoldable pub ligature_loop :
        ℕ → ℕ → ℕ → ℕ → List (RawGlyph T) → Outcome ParseError (List (RawGlyph T) × ℕ)
    ligature_loop zero start i len glyphs = panic
    ligature_loop (suc fuel) start i len glyphs =
        if ltb i (usize_add start len)
        then (at glyphs i >>= λ g. match_glyph m t g.glyph_index >>= λ matched.
            elim (matched && pred g) [
              | false ↦ ligature_loop fuel start (usize_add i 1) len glyphs
              | true ↦ ligaturesubst subtables i glyphs >>= λ (counts, new). elim counts [
                | none ↦ ligature_loop fuel start (usize_add i 1) len new
                | some counted ↦
                    ligature_loop fuel start (usize_add i (usize_add counted.1 1))
                      ((len + usize_mod - counted.0) % usize_mod) new
              ]
            ])
        else ok (glyphs, len)

    -- Each step goes past a glyph of the run.
    unfoldable pub apply_ligatures :
        ℕ → ℕ → List (RawGlyph T) → Outcome ParseError (List (RawGlyph T) × ℕ)
    apply_ligatures start len glyphs = ligature_loop (suc (length glyphs)) start start len glyphs
