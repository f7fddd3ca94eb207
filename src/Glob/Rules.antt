-- ===== src/Glob/Rules.antt =====
-- src/path_triggers.rs: the rules that a pull request's file list matches. A JSON field is the result
-- of its `as_str`; the `BTreeMap` by rule id is a list in the order of the ids.
use xero_bot.Text.Order.{text_lt, dedup, sort_texts}
use xero_bot.Glob.{valid_repo_path, CompiledGlob, compile_glob, path_matches, split}
use xero_bot.Prelude.{
  some, map, List, Option, [], Bool, if◌then◌else◌, ◌∷◌, false, any, ◌&&◌, take, ◌++◌, not, none,
}
use xero_bot.Policy.{Domain, invalid_response, ok, refused, ◌>>=◌}
use xero_bot.Text.{Text, text_eq, codes}

-- `PathRule` of src/config/repository.rs
pub record PathRule : Type 0 where
  pub id : Text
  pub include : List Text
  pub exclude : List Text
  pub labels : List Text
  pub cc_logins : List Text

pub record CompiledRule (Pattern : Type 0) : Type 0 where
  pub rule : PathRule
  pub included : List (CompiledGlob Pattern)
  pub excluded : List (CompiledGlob Pattern)

-- an entry of the file list
pub record FileEntry : Type 0 where
  pub filename : Option Text
  pub status : Option Text
  pub previous_filename : Option Text

pub record PathMatch : Type 0 where
  pub match_id : Text
  pub match_labels : List Text
  pub paths : List Text

module _ {Pattern : Type 0} (pattern_new : Text → Option Pattern) where
  unfoldable pub compile_globs : List Text → Domain (List (CompiledGlob Pattern))
  unfolding compile_glob
  compile_globs [] = ok []
  compile_globs (pattern ∷ patterns) = do
    g ← compile_glob pattern_new pattern
    gs ← compile_globs patterns
    ok (g ∷ gs)

  unfoldable pub compile_rules : List PathRule → Domain (List (CompiledRule Pattern))
  unfolding compile_globs
  compile_rules [] = ok []
  compile_rules (r ∷ rules) = do
    ins ← compile_globs r.include
    outs ← compile_globs r.exclude
    rest ← compile_rules rules
    ok (record { rule = r; included = ins; excluded = outs } ∷ rest)

-- the checks of a file name, then of the old name of a renamed file
unfoldable pub checked_path : Option Text → Domain Text
unfolding valid_repo_path
checked_path none = refused invalid_response
checked_path (some path) = if valid_repo_path path then ok path else refused invalid_response

abbrev pub is_renamed : Option Text → Bool
is_renamed none = false
is_renamed (some status) = text_eq status (codes "renamed")

-- a renamed file has its old path too
unfoldable pub with_previous : FileEntry → Text → Domain (List Text)
unfolding checked_path
with_previous file path =
    if is_renamed file.status
    then (checked_path file.previous_filename >>= (λ previous. ok (path ∷ previous ∷ [])))
    else ok (path ∷ [])

unfoldable pub file_paths : FileEntry → Domain (List Text)
unfolding with_previous
file_paths file = checked_path file.filename >>= with_previous file

-- an example for display: sorted, and three at most
unfoldable pub add_path : Text → PathMatch → PathMatch
unfolding sort_texts
add_path path m =
    if any (λ p. text_eq p path) m.paths
    then m
    else record m { paths = take 3 (sort_texts (m.paths ++ path ∷ [])) }

abbrev pub fresh : PathRule → PathMatch
fresh r = record { match_id = r.id; match_labels = r.labels; paths = [] }

-- `matched.entry(..).or_insert_with(..)`, and the path noted there
unfoldable pub note : PathRule → Text → List PathMatch → List PathMatch
unfolding add_path
note r path [] = add_path path (fresh r) ∷ []
note r path (m ∷ ms) =
    let further = m ∷ note r path ms in
    if text_eq m.match_id r.id
    then add_path path m ∷ ms
    else if text_lt r.id m.match_id
    then add_path path (fresh r) ∷ m ∷ ms
    else further

module _ {Pattern : Type 0} (matches : Pattern → Text → Bool) where
  unfoldable pub rule_matches_path : CompiledRule Pattern → List Text → Bool
  unfolding path_matches
  rule_matches_path r path =
      any (λ g. path_matches matches g path) r.included
      && not (any (λ g. path_matches matches g path) r.excluded)

  -- the three loops, from the inside
  unfoldable pub note_paths : CompiledRule Pattern → List Text → List PathMatch → List PathMatch
  unfolding note rule_matches_path split
  note_paths r [] ms = ms
  note_paths r (path ∷ paths) ms =
      note_paths r paths (if rule_matches_path r (split b'/' path) then note r.rule path ms else ms)

  unfoldable pub note_rules :
      List (CompiledRule Pattern) → List Text → List PathMatch → List PathMatch
  unfolding note_paths
  note_rules [] paths ms = ms
  note_rules (r ∷ rules) paths ms = note_rules rules paths (note_paths r paths ms)

  unfoldable pub note_files :
      List (CompiledRule Pattern) → List FileEntry → List PathMatch → Domain (List PathMatch)
  unfolding note_rules file_paths
  note_files rules [] ms = ok ms
  note_files rules (file ∷ files) ms = do
    paths ← file_paths file
    note_files rules files (note_rules rules paths ms)

unfoldable pub tidy : PathMatch → PathMatch
unfolding dedup sort_texts
tidy m = record m { match_labels = dedup (sort_texts m.match_labels) }

-- `matched_rules_with_evidence`
unfoldable pub matched_rules_with_evidence :
    {Pattern : Type 0}
    → (Text → Option Pattern)
    → (Pattern → Text → Bool)
    → List PathRule
    → List FileEntry
    → Domain (List PathMatch)
unfolding compile_rules note_files tidy
matched_rules_with_evidence pattern_new matches rules files = do
  compiled ← compile_rules pattern_new rules
  found ← note_files matches compiled files []
  ok (map tidy found)

-- `matched_rules`: the ids with their labels
unfoldable pub matched_rules :
    {Pattern : Type 0}
    → (Text → Option Pattern)
    → (Pattern → Text → Bool)
    → List PathRule
    → List FileEntry
    → Domain (List (Text × List Text))
unfolding matched_rules_with_evidence
matched_rules pattern_new matches rules files = do
  found ← matched_rules_with_evidence pattern_new matches rules files
  ok (map (λ m. (m.match_id, m.match_labels)) found)
