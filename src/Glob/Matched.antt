-- ===== src/Glob/Matched.antt =====
-- Which rules `matched_rules_with_evidence` (src/path_triggers.rs) reports.
use xero_bot.Glob.Safe.{IsNamed, file_paths-IsNamed}
use xero_bot.Policy.{Domain, ◌>>=◌, ok_inj}
use xero_bot.Text.Laws.{text_eq→eq}
use xero_bot.Glob.{split, ok, refused, false, Domain}
use xero_bot.Prelude.{
  List, Option, map, Bool, ◌≡◌, ◌∷◌, any, if_cases, refl, ◌||◌, ◌&&◌, ap, arith, [], Bool-cases,
  false, inl, inr, sym, All,
}
use xero_bot.Text.{Text, text_eq}
use xero_bot.Text.Order.{text_lt}
use xero_bot.Glob.Rules.{
  note, tidy, add_path, PathRule, PathMatch, CompiledRule, note_paths, note_files, note_rules,
  FileEntry, rule_matches_path, file_paths, fresh, matched_rules_with_evidence, compile_rules,
}

-- whether a rule is among the matches
abbrev pub reports : Text → List PathMatch → Bool
reports i ms = any (λ m. text_eq m.match_id i) ms

add_path-id : (path : Text) (m : PathMatch) → (add_path path m).match_id ≡ m.match_id
unfolding add_path
add_path-id path m =
    if_cases (λ (r : PathMatch). r.match_id ≡ m.match_id) (any (λ p. text_eq p path) m.paths) _ _
      (λ _. refl) (λ _. refl)

note-reports :
    (r : PathRule) (path i : Text) (ms : List PathMatch)
    → reports i (note r path ms) ≡ (text_eq r.id i || reports i ms)
unfolding note
note-reports r path i [] = rw (add_path-id path (fresh r)) refl
note-reports r path i (m ∷ ms) =
    let ih = note-reports r path i ms in
    let new = add_path-id path (fresh r) in
    let old = add_path-id path m in
    elim (Bool-cases (text_eq m.match_id r.id)) [
      | inl e ↦
          let same = ap (λ t. text_eq t i) (text_eq→eq m.match_id r.id e) in
          rw e (rw old (rw same (ground arith)))
      | inr e ↦ rw e (
          if_cases
            (λ (l : List PathMatch).
              reports i l ≡ (text_eq r.id i || (text_eq m.match_id i || reports i ms)))
            (text_lt r.id m.match_id) _ _ (λ _. rw new refl) (λ _. rw ih (ground arith)))
    ]

tidy-reports : (i : Text) (ms : List PathMatch) → reports i (map tidy ms) ≡ reports i ms
unfolding tidy
tidy-reports i [] = refl
tidy-reports i (m ∷ ms) = ap (λ b. text_eq m.match_id i || b) (tidy-reports i ms)

module _ {Pattern : Type 0} (pattern_new : Text → Option Pattern)
    (matches : Pattern → Text → Bool) where
  -- whether the rule applies to one of the paths
  abbrev pub applies : CompiledRule Pattern → List Text → Bool
  applies r paths = any (λ p. rule_matches_path matches r (split b'/' p)) paths

  note_paths-reports :
      (r : CompiledRule Pattern) (i : Text) (paths : List Text) (ms : List PathMatch)
      → reports i (note_paths matches r paths ms)
        ≡ ((text_eq r.rule.id i && applies r paths) || reports i ms)
  unfolding note_paths
  note_paths-reports r i [] ms = ground arith
  note_paths-reports r i (p ∷ paths) ms =
      elim (Bool-cases (rule_matches_path matches r (split b'/' p))) [
        | inl e ↦ rw e (
            rw (note_paths-reports r i paths (note r.rule p ms))
              (rw (note-reports r.rule p i ms) (ground arith)))
        | inr e ↦ rw e (note_paths-reports r i paths ms)
      ]

  -- whether a rule of this id applies to one of the paths
  abbrev pub chosen : List (CompiledRule Pattern) → Text → List Text → Bool
  chosen rules i paths = any (λ r. text_eq r.rule.id i && applies r paths) rules

  note_rules-reports :
      (rules : List (CompiledRule Pattern)) (i : Text) (paths : List Text) (ms : List PathMatch)
      → reports i (note_rules matches rules paths ms) ≡ (chosen rules i paths || reports i ms)
  unfolding note_rules
  note_rules-reports [] i paths ms = refl
  note_rules-reports (r ∷ rules) i paths ms =
      rw (note_rules-reports rules i paths (note_paths matches r paths ms))
        (rw (note_paths-reports r i paths ms) (ground arith))

  -- whether a rule of this id applies to a path of the file, new or old
  abbrev pub chosen_for : List (CompiledRule Pattern) → Text → FileEntry → Bool
  chosen_for rules i file = elim (file_paths file) [
    | refused _ ↦ false
    | ok paths ↦ chosen rules i paths
  ]

  file_reports :
      (rules : List (CompiledRule Pattern)) (i : Text) (o : Domain (List Text))
      (later : List PathMatch → Domain (List PathMatch)) (ms out : List PathMatch) (others : Bool)
      → ((ms' : List PathMatch) → later ms' ≡ ok out → reports i out ≡ (others || reports i ms'))
      → (o >>= (λ paths. later (note_rules matches rules paths ms))) ≡ ok out
      → reports i out ≡ (
          ((elim o [ refused _ ↦ false | ok paths ↦ chosen rules i paths ]) || others)
          || reports i ms)
  file_reports rules i (refused e) later ms out others ih h = cc
  file_reports rules i (ok paths) later ms out others ih h =
      rw (ih (note_rules matches rules paths ms) h)
        (rw (note_rules-reports rules i paths ms) (ground arith))

  files_reports :
      (rules : List (CompiledRule Pattern)) (i : Text) (files : List FileEntry)
      (ms out : List PathMatch)
      → note_files matches rules files ms ≡ ok out
      → reports i out ≡ (any (chosen_for rules i) files || reports i ms)
  unfolding note_files
  files_reports rules i [] ms out h = ap (reports i) (sym (ok_inj h))
  files_reports rules i (file ∷ files) ms out h =
      file_reports rules i (file_paths file) (note_files matches rules files) ms out
        (any (chosen_for rules i) files) (λ ms' k. files_reports rules i files ms' out k) h

  found_reports :
      (rules : List (CompiledRule Pattern)) (i : Text) (files : List FileEntry)
      (o : Domain (List PathMatch)) (out : List PathMatch)
      → note_files matches rules files [] ≡ o
      → (o >>= (λ found. ok (map tidy found))) ≡ ok out
      → reports i out ≡ any (chosen_for rules i) files
  found_reports rules i files (refused e) out k h = cc
  found_reports rules i files (ok found) out k h =
      let f = files_reports rules i files [] found k in
      rw (sym (ok_inj h)) (rw (tidy-reports i found) (rw f (ground arith)))

  -- If the rules compile and the file list matches without a problem, then a rule id is reported
  -- exactly when, for one of the files, a rule of that id includes and does not exclude one of the
  -- file's paths, the old path of a renamed file among them.
  pub matched_iff :
      (rules : List PathRule) (compiled : List (CompiledRule Pattern)) (files : List FileEntry)
      (out : List PathMatch) (i : Text)
      → compile_rules pattern_new rules ≡ ok compiled
      → matched_rules_with_evidence pattern_new matches rules files ≡ ok out
      → reports i out ≡ any (chosen_for compiled i) files
  unfolding matched_rules_with_evidence
  matched_iff rules compiled files out i c h =
      found_reports compiled i files (note_files matches compiled files []) out refl (rw c at h)

  file-IsNamed :
      (file : FileEntry) (o : Domain (List Text)) (later : List Text → Domain (List PathMatch))
      (out : List PathMatch)
      → file_paths file ≡ o
      → (o >>= later) ≡ ok out
      → IsNamed file × ((paths : List Text) × (later paths ≡ ok out))
  file-IsNamed file (refused e) later out f h = cc
  file-IsNamed file (ok paths) later out f h = (file_paths-IsNamed file paths f, (paths, h))

  files-IsNamed :
      (rules : List (CompiledRule Pattern)) (files : List FileEntry) (ms out : List PathMatch)
      → note_files matches rules files ms ≡ ok out
      → All IsNamed files
  unfolding note_files
  files-IsNamed rules [] ms out h = tt
  files-IsNamed rules (file ∷ files) ms out h =
      let (named, (paths, k)) = file-IsNamed file (file_paths file) _ out refl h in
      (named, files-IsNamed rules files (note_rules matches rules paths ms) out k)

  found-IsNamed :
      (rules : List (CompiledRule Pattern)) (files : List FileEntry) (o : Domain (List PathMatch))
      (out : List PathMatch)
      → note_files matches rules files [] ≡ o
      → (o >>= (λ found. ok (map tidy found))) ≡ ok out
      → All IsNamed files
  found-IsNamed rules files (refused e) out k h = cc
  found-IsNamed rules files (ok found) out k h = files-IsNamed rules files [] found k

  rules-IsNamed :
      (files : List FileEntry) (o : Domain (List (CompiledRule Pattern))) (out : List PathMatch)
      → (o
          >>= (λ compiled. note_files matches compiled files [] >>= (λ found. ok (map tidy found))))
        ≡ ok out
      → All IsNamed files
  rules-IsNamed files (refused e) out h = cc
  rules-IsNamed files (ok compiled) out h =
      found-IsNamed compiled files (note_files matches compiled files []) out refl h

  -- A match is reported only for a file list each of whose entries has a safe path, and a safe old
  -- path if it is renamed. A safe path has no backslash and no NUL, and none of its segments between
  -- slashes is empty, one dot or two dots.
  pub matched-All :
      (rules : List PathRule) (files : List FileEntry) (out : List PathMatch)
      → matched_rules_with_evidence pattern_new matches rules files ≡ ok out
      → All IsNamed files
  unfolding matched_rules_with_evidence
  matched-All rules files out h = rules-IsNamed files (compile_rules pattern_new rules) out h
