-- ===== src/Glob/Tests.antt =====
-- Globs of the tests of src/path_triggers.rs, with literal pieces as the patterns.
use xero_bot.Glob.Matched.{reports, matched-All, chosen_for, matched_iff}
use xero_bot.Glob.Safe.{IsNamed}
use xero_bot.Glob.Rules.{
  compile_rules, PathMatch, CompiledRule, PathRule, matched_rules_with_evidence, FileEntry,
  matched_rules,
}
use xero_bot.Glob.Compiled.{Plain, compile_glob_keeps}
use xero_bot.Glob.Segment.{Splits, segment_matches_iff}
use xero_bot.Glob.Path.{Fits, path_matches_iff}
use xero_bot.Prelude.{
  Option, Bool, ◌∷◌, some, ◌≡◌, true, false, [], refl, ◌↔◌, List, All, none, any,
}
use xero_bot.Policy.{ok, invalid_response}
use xero_bot.Text.{Text, codes, text_eq, starts_with}
use xero_bot.Glob.{
  CompiledGlob, path_matches, compile_glob, segment_matches, Bool, codes, split, pieces, Option,
  some, text_eq, false, [], true, any_depth, starts_with, List, any, none, refused,
}

abbrev literal : Text → Option Text
literal s = some s

abbrev same_text : Text → Text → Bool
same_text s t = text_eq s t

abbrev rust_files : CompiledGlob Text
rust_files =
    pieces (record { pattern = codes "src"; width = 3 } ∷ [])
    ∷ any_depth
    ∷ pieces (record { pattern = []; width = 0 } ∷ record { pattern = codes ".rs"; width = 3 } ∷ [])
    ∷ []

compiled_rust_files : compile_glob literal (codes "src/**/**/*.rs") ≡ ok rust_files
unfolding compile_glob text_eq starts_with
compiled_rust_files = refl

root_file_matches : path_matches same_text rust_files (split b'/' (codes "src/lib.rs")) ≡ true
unfolding path_matches split text_eq
root_file_matches = refl

nested_file_matches : path_matches same_text rust_files (split b'/' (codes "src/a/b.rs")) ≡ true
unfolding path_matches split text_eq
nested_file_matches = refl

other_file_does_not_match :
    path_matches same_text rust_files (split b'/' (codes "src/a/b.py")) ≡ false
unfolding path_matches split text_eq
other_file_does_not_match = refl

segment_matches_iff_example :
    (segment_matches same_text
        (record { pattern = codes "a"; width = 1 } ∷ record { pattern = codes "b"; width = 1 } ∷ [])
        (codes "axb")
      ≡ true)
    ↔ Splits same_text false
        (record { pattern = codes "a"; width = 1 } ∷ record { pattern = codes "b"; width = 1 } ∷ [])
        (codes "axb")
segment_matches_iff_example =
    segment_matches_iff same_text
      (record { pattern = codes "a"; width = 1 } ∷ record { pattern = codes "b"; width = 1 } ∷ [])
      (codes "axb")

path_matches_iff_example :
    (path_matches same_text rust_files (codes "src" ∷ codes "lib.rs" ∷ []) ≡ true)
    ↔ Fits same_text rust_files (codes "src" ∷ codes "lib.rs" ∷ [])
path_matches_iff_example = path_matches_iff same_text rust_files (codes "src" ∷ codes "lib.rs" ∷ [])

compile_glob_keeps_example :
    (plain : CompiledGlob Text) × Plain literal same_text
      (split b'/' (codes "src/**/**/*.rs"))
      plain
    × ((paths : List Text) → Fits same_text rust_files paths ↔ Fits same_text plain paths)
compile_glob_keeps_example =
    compile_glob_keeps literal same_text (codes "src/**/**/*.rs") rust_files compiled_rust_files

abbrev rust_rule : PathRule
rust_rule = record {
  id = codes "r";
  include = codes "src/**/*.rs" ∷ [];
  exclude = codes "src/generated/**" ∷ [];
  labels = codes "b" ∷ codes "a" ∷ codes "b" ∷ [];
  cc_logins = [];
}

abbrev compiled_rule : CompiledRule Text
compiled_rule = record {
  rule = rust_rule;
  included = rust_files ∷ [];
  excluded =
      (pieces (record { pattern = codes "src"; width = 3 } ∷ [])
        ∷ pieces (record { pattern = codes "generated"; width = 9 } ∷ [])
        ∷ any_depth
        ∷ [])
      ∷ [];
}

abbrev renamed_file : FileEntry
renamed_file = record {
  filename = some (codes "docs/new.md");
  status = some (codes "renamed");
  previous_filename = some (codes "src/old.rs");
}

abbrev reported : List PathMatch
reported =
    record {
      match_id = codes "r";
      match_labels = codes "a" ∷ codes "b" ∷ [];
      paths = codes "src/old.rs" ∷ [];
    }
    ∷ []

rule_compiles : compile_rules literal (rust_rule ∷ []) ≡ ok (compiled_rule ∷ [])
unfolding compile_rules text_eq starts_with
rule_compiles = refl

renamed_file_matches_by_its_old_path :
    matched_rules_with_evidence literal same_text (rust_rule ∷ []) (renamed_file ∷ []) ≡ ok reported
unfolding matched_rules_with_evidence text_eq starts_with
renamed_file_matches_by_its_old_path = refl

malformed_rename_is_rejected :
    matched_rules_with_evidence literal same_text
      (rust_rule ∷ [])
      (record renamed_file { previous_filename = none } ∷ [])
    ≡ refused invalid_response
unfolding matched_rules_with_evidence text_eq starts_with
malformed_rename_is_rejected = refl

matched_iff_example :
    reports (codes "r") reported
    ≡ any (chosen_for literal same_text (compiled_rule ∷ []) (codes "r")) (renamed_file ∷ [])
matched_iff_example =
    matched_iff literal same_text (rust_rule ∷ []) (compiled_rule ∷ []) (renamed_file ∷ []) reported
      (codes "r") rule_compiles renamed_file_matches_by_its_old_path

matched-All_example : All IsNamed (renamed_file ∷ [])
matched-All_example =
    matched-All literal same_text (rust_rule ∷ []) (renamed_file ∷ []) reported
      renamed_file_matches_by_its_old_path

labels_are_sorted_without_repeats :
    matched_rules literal same_text (rust_rule ∷ []) (renamed_file ∷ [])
    ≡ ok ((codes "r", codes "a" ∷ codes "b" ∷ []) ∷ [])
unfolding matched_rules text_eq starts_with
labels_are_sorted_without_repeats = refl
