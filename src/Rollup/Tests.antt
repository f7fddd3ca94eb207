-- ===== src/Rollup/Tests.antt =====
-- Three queued entries of which the last must run alone, and the checks of a candidate.
use xero_bot.Rollup.Ingress.{Decision, new_entry, apply_command, Reply, done, recorded}
use xero_bot.Rollup.Commands.{apply_command-Once}
use xero_bot.Prelude.{
  ◌≡◌, ◌↔◌, ◌≤◌, ◌⊎◌, refl, Bool, true, false, not, ◌&&◌, List, [], ◌∷◌, ◌++◌, length, All, any,
  some, none, ltb, if◌then◌else◌, map, ℕ, ◌<◌,
}
use xero_bot.Text.{Text, codes, text_eq, to_ascii_lowercase}
use xero_bot.Parser.Args.{is_empty}
use xero_bot.Store.Table.{find_where}
use xero_bot.Rollup.{Repository, Policy, Entry, Batch, entry}
use xero_bot.Rollup.Engine.{
  Check, Verdict, github_verdict, is_named, is_success, select_group, joins_batch, finish_batch,
}
use xero_bot.Command.{Command}
use xero_bot.Rollup.Verdicts.{github_verdict_green}
use xero_bot.Rollup.Groups.{
  select_group-Conserves, select_group-IsWithin, finish_batch-Bisects, put_back, candidates_of,
  later_halves,
}

abbrev check : Text → Text → Check
check name conclusion = record {
  name = some name;
  head_sha = some (codes "c0");
  app_slug = some (codes "github-actions");
  conclusion = some conclusion;
}

abbrev checks : List Check
checks =
    check (codes "build") (codes "success")
    ∷ check (codes "test") (codes "success")
    ∷ check (codes "lint") (codes "failure")
    ∷ []

required_green :
    github_verdict checks (codes "build" ∷ codes "test" ∷ []) (codes "c0") ≡ Verdict.green
unfolding github_verdict text_eq
required_green = refl

failed_lint :
    github_verdict checks (codes "build" ∷ codes "lint" ∷ []) (codes "c0") ≡ Verdict.failed
unfolding github_verdict text_eq
failed_lint = refl

missing_docs : github_verdict checks (codes "docs" ∷ []) (codes "c0") ≡ Verdict.pending
unfolding github_verdict text_eq
missing_docs = refl

github_verdict_green_example :
    (github_verdict checks (codes "build" ∷ []) (codes "c0") ≡ Verdict.green) ↔ (
      (is_empty (codes "build" ∷ []) ≡ false)
      × All
          (λ name.
            (any (is_named name (codes "c0")) checks ≡ true)
            × All
                (λ check. is_named name (codes "c0") check ≡ true → is_success check ≡ true)
                checks)
          (codes "build" ∷ []))
github_verdict_green_example = github_verdict_green checks (codes "build" ∷ []) (codes "c0")

abbrev queued : Text → Bool → Entry
queued key alone = record {
  key = key;
  number = 1;
  head = [];
  title = [];
  approved_by = [];
  origin = record { provider = []; repo = []; number = 1; login = [] };
  rollup = true;
  try_only = alone;
  created = 0;
  decision_time = 0;
  decision_comment = 0;
  decision_provider = [];
  state = codes "testing";
  detail = [];
  batch = some 5;
}

abbrev keys : List Text
keys = codes "a" ∷ codes "b" ∷ codes "c" ∷ []

abbrev running : Batch
running = record {
  id = 5;
  members = keys;
  heads = [];
  approvals = [];
  base = [];
  base_branch = [];
  branch = [];
  tip = [];
  state = codes "testing";
  created = 0;
  finished = none;
  detail = [];
  try_only = false;
  audit_pr = none;
  audit_attempted = false;
  cleaned = false;
  forgejo_recorded = false;
  github_ci = [];
  forgejo_ci = [];
  fallback_started = none;
  passed_on = none;
}

abbrev repository : List (List Text) → Repository
repository split = record {
  name = [];
  id = 1;
  installation = 1;
  entries = queued (codes "a") false ∷ queued (codes "b") false ∷ queued (codes "c") true ∷ [];
  batches = running ∷ [];
  active = some 5;
  split = split;
  sequence = 5;
  commands = [];
  public = false;
  checked = 0;
  next_attempt = 0;
  failures = 0;
  detail = [];
}

abbrev policy : Policy
policy = record {
  enabled = true;
  public = false;
  max_batch = 4;
  collect_seconds = 60;
  timeout_seconds = 7200;
  required_checks = [];
  forgejo_required_checks = [];
  fallback_after_seconds = 900;
  reviewers = [];
}

-- the half gives its two entries that may share a batch; the third is put back
abbrev chosen : List Text × Repository
chosen = (codes "a" ∷ codes "b" ∷ [], repository ((codes "c" ∷ []) ∷ []))

select_group-Conserves_example :
    (rest : List Text) × ((chosen.0 ++ rest ≡ candidates_of (repository (keys ∷ [])) keys)
      × (chosen.1.split ≡ (
          if is_empty (repository (keys ∷ [])).split
          then []
          else put_back rest (later_halves (repository (keys ∷ []))))))
unfolding select_group text_eq
select_group-Conserves_example =
    select_group-Conserves 9 (repository (keys ∷ [])) keys policy chosen refl

select_group-IsWithin_example :
    (length chosen.0 ≤ 1)
    ⊎ ((length chosen.0 ≤ policy.max_batch)
        × All
            (λ k.
              (e : Entry) × ((entry (repository (keys ∷ [])) k ≡ some e) × (joins_batch e ≡ true)))
            chosen.0)
unfolding select_group text_eq
select_group-IsWithin_example =
    select_group-IsWithin 9 (repository (keys ∷ [])) keys policy chosen refl

-- the repository after its batch failed
abbrev split_repository : Repository
split_repository = record (repository []) {
  batches = record running { state = codes "failed"; detail = []; finished = some 9 } ∷ [];
  split = (codes "a" ∷ []) ∷ (codes "b" ∷ codes "c" ∷ []) ∷ [];
  entries = map (λ (e : Entry). record e { state = codes "queued" }) (repository []).entries;
  active = none;
}

finish_batch-Bisects_example :
    (split_repository.active ≡ none)
    × (((text_eq (codes "failed") (codes "failed")
              && (ltb 1 (length running.members) && not running.try_only))
            ≡ false)
          × (split_repository.split ≡ (repository []).split)
        ⊎ ((text_eq (codes "failed") (codes "failed") ≡ true)
            × ((1 < length running.members)
                × ((running.try_only ≡ false)
                    × ((first : List Text) × ((second : List Text) × ((split_repository.split
                              ≡ first ∷ second ∷ (repository []).split)
                            × ((first ++ second ≡ running.members)
                                × ((1 ≤ length first) × (1 ≤ length second))))))))))
unfolding finish_batch find_where text_eq
finish_batch-Bisects_example =
    finish_batch-Bisects 9 (repository []) 5 (codes "failed") [] running split_repository refl refl

abbrev no_digits : ℕ → Text
no_digits n = []

abbrev decision : Decision
decision = record {
  origin = record { provider = codes "github"; repo = codes "o/r"; number = 7; login = [] };
  number = 7;
  head = codes "c1";
  approver = codes "alice";
  source_time = 50;
  comment_id = 3;
}

abbrev approved : Entry
approved = new_entry no_digits decision none false false false

abbrev approved_repository : Repository
approved_repository = record (repository []) {
  entries = (repository []).entries ++ approved ∷ [];
  commands = codes "command" ∷ [];
}

apply_command-Once_example :
    (again : Reply) × (apply_command no_digits
        (Command.approve none)
        decision
        (codes "command")
        approved_repository
      ≡ done again approved_repository)
unfolding apply_command text_eq to_ascii_lowercase
apply_command-Once_example =
    apply_command-Once no_digits (Command.approve none) decision (codes "command") (repository [])
      recorded approved_repository refl
