-- ===== src/Tests/Shaping.antt =====
-- src/context.rs, src/gsub.rs and src/scripts on concrete inputs.
use allsorts.Base.{
  ◌+◌, ℕ, ◌/◌, ◌%◌, ◌≡◌, ◌≤◌, refl, arith, ◌==◌, Bool, true, false, List, [], ◌∷◌, ◌++◌, Option,
  none, some, length, map,
}
use allsorts.Error.{ok, panic, Ends}
use allsorts.Layout.ClassDef.{ClassDef, glyph_class_value}
use allsorts.Layout.Coverage.{Coverage, glyph_coverage_value, binary_search}
use allsorts.Gdef.{GdefTable, glyph_class}
use allsorts.Context.{
  MatchContext, by_id, by_coverage, skip_marks, match_glyph, match_marks, matches, match_front,
  match_front_loop, find_next, find_next_loop, check_glyph_table,
}
use allsorts.Context.Filter.{keeps, match_glyph_lem}
use allsorts.Context.Match.{holds, matches-holds}
use allsorts.Gsub.{MultipleSubst, first_apply, entry_of}
use allsorts.Gsub.Fraction.{Plain, find_fraction, find_fraction-fraction_at}
use allsorts.Gsub.Glyph.{RawGlyph, char}
use allsorts.Gsub.Ligature.{Ligature, ligature_matches, ligature_apply, take_loop, mark_loop}
use allsorts.Gsub.Ligature.Lookup.{
  LigatureSubst, apply_ligatures, ligature_loop, ligaturesubst, ligature_for, first_ligature,
}
use allsorts.Gsub.Ligature.Run.{apply_ligatures-Ends}
use allsorts.Gsub.Ligature.Components.{skipped, left_over, marked}
use allsorts.Gsub.Ligature.Apply.{ligated, ligature_apply-matches}
use allsorts.Gsub.Lookup.{apply_multiple, expand_all, apply_multiple-expand_all}
use allsorts.Gsub.Multiple.{multiplesubst, expansion, replaced, multiplesubst-expansion}
use allsorts.Scripts.Joining.{join_letters}
use allsorts.Scripts.Joining.Forms.{shaped}
use allsorts.Scripts.Arabic.{JoiningTypes, arabic, arabic_of, arabic_letters}
use allsorts.Scripts.Syriac.{JoiningGroups, SyriacData, syriac_of, join_alaph, set_feature_tag}
use allsorts.Scripts.Syriac.Rule.{AlaphRule}
use allsorts.Scripts.Syriac.Alaph.{join_alaph-AlaphRule}

-- Glyph 9 is a mark.
abbrev marks : Option GdefTable
marks = some (record {
  opt_glyph_classdef = some (ClassDef.format1 9 (3 ∷ []));
  opt_mark_attach_classdef = none;
})

match_glyph_lem_example : match_glyph skip_marks marks 9 ≡ ok (keeps skip_marks marks 9)
match_glyph_lem_example = match_glyph_lem skip_marks marks 9

-- Glyph 4 before the position, then 5, and a glyph of a coverage.
abbrev a_context : MatchContext
a_context = record {
  backtrack_table = by_id (4 ∷ []);
  input_table = by_id (5 ∷ []);
  lookahead_table = by_coverage (Coverage.format1 (6 ∷ 8 ∷ []) ∷ []);
}

abbrev a_run : List ℕ
a_run = 4 ∷ 9 ∷ 7 ∷ 9 ∷ 5 ∷ 8 ∷ []

matches-holds_example :
    matches a_context marks skip_marks a_run 2 ≡ ok (holds a_context marks skip_marks a_run 2)
matches-holds_example = matches-holds a_context marks skip_marks a_run 2 (omega arith) (omega arith)

abbrev plain : ℕ → RawGlyph (Unit {0})
plain g = record {
  unicodes = g ∷ [];
  glyph_index = g;
  liga_component_pos = 0;
  glyph_origin = char g;
  small_caps = false;
  multi_subst_dup = false;
  is_vert_alt = false;
  fake_bold = false;
  fake_italic = false;
  variation = none;
  extra_data = tt;
}

abbrev merge : Unit {0} → Unit {0} → Unit {0}
merge a b = a

abbrev fi : Ligature
fi = record { ligature_glyph = 100; component_glyphs = 2 ∷ [] }

abbrev behind_f : List (RawGlyph (Unit {0}))
behind_f = plain 9 ∷ plain 2 ∷ plain 5 ∷ []

fi_matches : ligature_matches merge skip_marks marks fi 1 (plain 7 ∷ plain 1 ∷ behind_f) ≡ ok true
unfolding ligature_matches match_front match_front_loop find_next find_next_loop match_glyph
    match_marks glyph_class glyph_class_value check_glyph_table
fi_matches = refl

ligature_apply-matches_example :
    ligature_apply merge skip_marks marks fi 1 (plain 7 ∷ plain 1 ∷ behind_f)
    ≡ ok (
      plain 7
          ∷ ligated merge skip_marks marks fi (plain 1) behind_f
          ∷ (skipped merge skip_marks marks 1 0 behind_f
              ++ marked merge skip_marks marks 1 (left_over merge skip_marks marks 1 behind_f)),
      length (skipped merge skip_marks marks 1 0 behind_f),
    )
ligature_apply-matches_example =
    ligature_apply-matches merge skip_marks marks fi (plain 7 ∷ []) behind_f (plain 1) (omega arith)
      fi_matches

-- Glyph 3 becomes the glyphs 30, 31 and 32.
abbrev decompose : List MultipleSubst
decompose =
    record { coverage = Coverage.format1 (3 ∷ []); sequences = (30 ∷ 31 ∷ 32 ∷ []) ∷ [] } ∷ []

three_decomposes :
    first_apply (λ s. entry_of s.coverage s.sequences 3) decompose ≡ ok (some (30 ∷ 31 ∷ 32 ∷ []))
unfolding first_apply entry_of glyph_coverage_value binary_search
three_decomposes = refl

multiplesubst-expansion_example :
    multiplesubst decompose 1 (plain 1 ∷ plain 3 ∷ plain 2 ∷ [])
    ≡ ok (
      replaced (some (30 ∷ 31 ∷ 32 ∷ [])),
      (plain 1 ∷ []) ++ (expansion (some (30 ∷ 31 ∷ 32 ∷ [])) (plain 3) ++ plain 2 ∷ []),
    )
multiplesubst-expansion_example =
    multiplesubst-expansion decompose (plain 1 ∷ []) (plain 2 ∷ []) (plain 3)
      (some (30 ∷ 31 ∷ 32 ∷ [])) three_decomposes

abbrev every : RawGlyph (Unit {0}) → Bool
every g = true

abbrev stretch_out : List (RawGlyph (Unit {0}))
stretch_out = expansion (some (30 ∷ 31 ∷ 32 ∷ [])) (plain 3) ++ (plain 2 ∷ [])

stretch_expands :
    expand_all decompose skip_marks marks every (plain 3 ∷ plain 2 ∷ []) ≡ ok stretch_out
unfolding first_apply entry_of glyph_coverage_value binary_search
stretch_expands = refl

apply_multiple-expand_all_example :
    apply_multiple decompose skip_marks marks every 1 2 (plain 1 ∷ plain 3 ∷ plain 2 ∷ plain 3 ∷ [])
    ≡ ok ((plain 1 ∷ []) ++ (stretch_out ++ plain 3 ∷ []), length stretch_out)
apply_multiple-expand_all_example =
    apply_multiple-expand_all decompose skip_marks marks every (plain 1 ∷ [])
      (plain 3 ∷ plain 2 ∷ []) (plain 3 ∷ []) stretch_out stretch_expands (omega arith)

-- Glyph 1 begins the ligatures of 2 and of 2 and 3.
abbrev ligatures : List LigatureSubst
ligatures =
    record {
      coverage = Coverage.format1 (1 ∷ []);
      ligaturesets =
          (record { ligature_glyph = 123; component_glyphs = 2 ∷ 3 ∷ [] } ∷ fi ∷ []) ∷ [];
    }
    ∷ []

apply_ligatures-Ends_example :
    Ends
      (λ r. (0 + r.1 ≡ length r.0) × (length r.0 ≤ 4))
      (apply_ligatures merge skip_marks marks ligatures every 0 4 (plain 1 ∷ behind_f))
apply_ligatures-Ends_example =
    apply_ligatures-Ends merge skip_marks marks ligatures every 0 4 (plain 1 ∷ behind_f)
      (omega arith) refl

-- A stretch of one glyph whose ligature reaches past its end by two: the length underflows, and the
-- loop goes on past the last glyph.
underflow :
    apply_ligatures merge skip_marks marks ligatures every 0 1 (plain 1 ∷ plain 2 ∷ plain 3 ∷ [])
    ≡ panic
unfolding apply_ligatures ligature_loop ligaturesubst ligature_for first_ligature ligature_matches
    match_front match_front_loop find_next find_next_loop match_glyph match_marks glyph_class
    glyph_class_value check_glyph_table entry_of glyph_coverage_value binary_search ligature_apply
    take_loop mark_loop
underflow = refl

-- Joining types and groups as numbers: 0 is non-joining, 1 right-joining, 2 left-joining, 3
-- dual-joining, 4 join-causing and 5 transparent; a character has the type of its last digit and the
-- group of its tens.
abbrev types : JoiningTypes ℕ
types = record {
  same_type = λ a b. a == b;
  dual_joining = 3;
  join_causing = 4;
  left_joining = 2;
  right_joining = 1;
  non_joining = 0;
  transparent = 5;
  get_joining_type = λ c. c % 10;
}

abbrev groups : JoiningGroups ℕ
groups = record {
  same_group = λ a b. a == b;
  alaph = 1;
  dalath_rish = 2;
  no_joining_group = 0;
  get_joining_group = λ c. c / 10;
}

arabic_letters_example :
    join_letters (arabic types) (map (arabic_of types) (plain 3 ∷ plain 5 ∷ plain 3 ∷ plain 1 ∷ []))
    ≡ ok (
        shaped
          (arabic types)
          false
          (map (arabic_of types) (plain 3 ∷ plain 5 ∷ plain 3 ∷ plain 1 ∷ [])))
arabic_letters_example = arabic_letters types (plain 3 ∷ plain 5 ∷ plain 3 ∷ plain 1 ∷ [])

abbrev letter : ℕ → RawGlyph (SyriacData ℕ ℕ)
letter c = syriac_of types groups (plain c)

join_alaph-AlaphRule_example :
    (gs' : List (RawGlyph (SyriacData ℕ ℕ))) × (join_alaph types groups
        (letter 3 ∷ letter 21 ∷ letter 11 ∷ letter 0 ∷ [])
      ≡ ok gs')
    × AlaphRule types groups (letter 3 ∷ letter 21 ∷ letter 11 ∷ letter 0 ∷ []) gs'
join_alaph-AlaphRule_example =
    join_alaph-AlaphRule types groups (letter 3 ∷ letter 21 ∷ letter 11 ∷ letter 0 ∷ [])

-- An alaph behind a dalath that does not join to it
behind_dalath :
    join_alaph types groups (letter 3 ∷ letter 21 ∷ letter 11 ∷ letter 0 ∷ [])
    ≡ ok
        (letter 3 ∷ letter 21 ∷ set_feature_tag types groups 0x66696e33 (letter 11) ∷ letter 0 ∷ [])
unfolding join_alaph
behind_dalath = refl

-- `a12/7b`
abbrev seven : List Plain
seven = map plain (97 ∷ 49 ∷ 50 ∷ 47 ∷ 55 ∷ 98 ∷ [])

find_fraction-fraction_at_example : find_fraction seven ≡ ok (some (1, 3, 4))
find_fraction-fraction_at_example = find_fraction-fraction_at seven (omega arith)
