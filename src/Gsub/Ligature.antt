-- ===== src/Gsub/Ligature.antt =====
-- src/layout.rs and src/gsub.rs, `Ligature`: a glyph and the components that follow it become one
-- glyph. `merge` is the method of `GlyphData` for the data of the script.
pub mod Components
pub mod Apply
pub mod Lookup
pub mod Step
pub mod Run
use allsorts.Base.{
  ℕ, zero, suc, ◌+◌, ◌%◌, ◌^◌, Bool, true, false, ltb, if◌then◌else◌, List, [], ◌∷◌, ◌++◌, Option,
  none, some, length, map,
}
use allsorts.Context.{MatchType, at, match_glyph, match_front, by_id, marks_only}
use allsorts.Error.{Outcome, ok, panic, ParseError, ◌>>=◌}
use allsorts.Gdef.{GdefTable}
use allsorts.Scripts.Joining.{set_at}
use allsorts.Gsub.Glyph.{RawGlyph, direct}
use allsorts.Gsub.{vec_remove}

pub record Ligature : Type 0 where
  pub ligature_glyph : ℕ
  pub component_glyphs : List ℕ

module _ {T : Type 0} (merge : T → T → T) (m : MatchType) (t : Option GdefTable) where
  unfoldable pub ligature_matches : Ligature → ℕ → List (RawGlyph T) → Outcome ParseError Bool
  ligature_matches l i glyphs =
      match_front m t (by_id l.component_glyphs) (map (λ g. g.glyph_index) glyphs) i 0
      >>= λ (matched, _). ok matched

  -- The component is taken into the glyph.
  abbrev pub absorb : RawGlyph T → RawGlyph T → RawGlyph T
  absorb g matched_glyph = record g {
    unicodes = g.unicodes ++ matched_glyph.unicodes;
    extra_data = merge g.extra_data matched_glyph.extra_data;
  }

  abbrev pub set_component : ℕ → RawGlyph T → RawGlyph T
  set_component matched g = record g { liga_component_pos = matched % 2 ^ 16 }

  -- The first loop of `apply`, for `count` components at `i`: the glyphs, the index and the number of
  -- the glyphs that were passed over. Each step removes a glyph or passes one over.
  unfoldable pub take_loop :
      ℕ → ℕ → ℕ → ℕ → ℕ → ℕ → List (RawGlyph T) → Outcome ParseError (List (RawGlyph T) × ℕ × ℕ)
  take_loop zero count i index matched skip glyphs = panic
  take_loop (suc fuel) count i index matched skip glyphs =
      if ltb matched count
      then if ltb index (length glyphs)
        then (at glyphs index >>= λ x. match_glyph m t x.glyph_index >>= λ keep. elim keep [
          | true ↦ vec_remove glyphs index >>= λ removed. at removed i >>= λ g.
              take_loop fuel count i index (matched + 1) skip (set_at removed i (absorb g x))
          | false ↦
              take_loop fuel count i (index + 1) matched (skip + 1)
                (set_at glyphs index (set_component matched x))
        ])
        else panic
      else ok (glyphs, index, skip)

  -- The second loop: the marks behind the ligature.
  unfoldable pub mark_loop : ℕ → ℕ → ℕ → List (RawGlyph T) → Outcome ParseError (List (RawGlyph T))
  mark_loop zero matched index glyphs = ok glyphs
  mark_loop (suc fuel) matched index glyphs =
      if ltb index (length glyphs)
      then (at glyphs index >>= λ x. match_glyph marks_only t x.glyph_index >>= λ keep. elim keep [
        | true ↦ mark_loop fuel matched (index + 1) (set_at glyphs index (set_component matched x))
        | false ↦ ok glyphs
      ])
      else ok glyphs

  -- `Ligature::apply`: the glyphs and the number of those passed over.
  unfoldable pub ligature_apply :
      Ligature → ℕ → List (RawGlyph T) → Outcome ParseError (List (RawGlyph T) × ℕ)
  ligature_apply l i glyphs =
      let count = length l.component_glyphs in
      take_loop (suc (length glyphs)) count i (i + 1) 0 0 glyphs >>= λ (taken, index, skip).
      mark_loop (length taken) count index taken >>= λ marked. at marked i >>= λ g.
      ok
        (set_at marked i (record g { glyph_index = l.ligature_glyph; glyph_origin = direct }), skip)
