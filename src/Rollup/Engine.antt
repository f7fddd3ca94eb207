-- ===== src/Rollup/Engine.antt =====
-- The decisions of src/rollup/engine.rs: the verdict of the checks, the choice of a batch and its end. A
-- lookup that the source unwraps returns none where the source panics.
use xero_bot.Text.{Text, text_eq, codes}
use xero_bot.Prelude.{
  Bool, true, false, not, Option, none, some, ℕ, zero, suc, List, [], ◌∷◌, ◌++◌, ◌&&◌, ◌||◌, ◌==◌,
  ◌+◌, ◌/◌, ltb, any, take, length, if◌then◌else◌, drop,
}
use xero_bot.Store.Table.{select_where, find_where}
use xero_bot.Parser.Args.{is_empty}
use xero_bot.Rollup.{Repository, Batch, Entry, Policy, entry}

pub data Verdict : Type 0 where
  green failed pending : Verdict

-- a check run's strings, none where the JSON has no string
pub record Check : Type 0 where
  pub name : Option Text
  pub head_sha : Option Text
  pub app_slug : Option Text
  pub conclusion : Option Text

abbrev pub is_text : Option Text → Text → Bool
is_text none t = false
is_text (some s) t = text_eq s t

abbrev pub is_named : Text → Text → Check → Bool
is_named name sha check =
    is_text check.name name
    && (is_text check.head_sha sha && is_text check.app_slug (codes "github-actions"))

abbrev pub is_success : Check → Bool
is_success check = is_text check.conclusion (codes "success")

unfoldable pub is_failure : Check → Bool
is_failure check =
    is_text check.conclusion (codes "failure")
    || (is_text check.conclusion (codes "timed_out")
        || (is_text check.conclusion (codes "cancelled")
            || (is_text check.conclusion (codes "action_required")
                || (is_text check.conclusion (codes "skipped")
                    || is_text check.conclusion (codes "neutral")))))

-- The loop over a name's checks: whether one is found and whether one is pending so far, or none for
-- the return of a failure.
unfoldable pub scan_checks : Text → Text → List Check → Bool × Bool → Option (Bool × Bool)
scan_checks name sha [] acc = some acc
scan_checks name sha (check ∷ checks) acc =
    let named = scan_checks name sha checks (true, acc.1) in
    let waiting = scan_checks name sha checks (true, true) in
    let other = scan_checks name sha checks acc in
    if not (is_named name sha check)
    then other
    else if is_success check
    then named
    else if is_failure check
    then none
    else waiting

-- the loop over the names, with `pending` so far as `waits`
unfoldable pub scan_names : List Check → Text → List Text → Bool → Verdict
unfolding scan_checks is_failure
scan_names checks sha [] waits = if waits then Verdict.pending else Verdict.green
scan_names checks sha (name ∷ names) waits = elim (scan_checks name sha checks (false, waits)) [
  | none ↦ Verdict.failed
  | some r ↦ scan_names checks sha names (r.1 || not r.0)
]

unfoldable pub github_verdict : List Check → List Text → Text → Verdict
unfolding scan_names
github_verdict checks required sha =
    if is_empty required then Verdict.pending else scan_names checks sha required false

abbrev pub joins_batch : Entry → Bool
joins_batch e = e.rollup && not e.try_only

-- `take_while` and `take`, which stops before it asks for a key too many
unfoldable pub rollup_run : Repository → ℕ → List Text → Option ℕ
unfolding entry
rollup_run repo zero keys = some 0
rollup_run repo (suc n) [] = some 0
rollup_run repo (suc n) (k ∷ ks) =
    let rest = rollup_run repo n ks in
    elim (entry repo k) [
      | none ↦ none
      | some e ↦
          if joins_batch e then (elim rest [ none ↦ none | some m ↦ some (suc m) ]) else some 0
    ]

abbrev pub batch_size : Repository → Policy → Entry → List Text → Option ℕ
batch_size repo p e candidates =
    if not e.rollup || e.try_only then some 1 else rollup_run repo p.max_batch candidates

-- `split_off`, and what is left of a split half goes back before the later ones
abbrev pub split_off : Bool → Repository → List Text → ℕ → List Text × Repository
split_off splitting repo candidates size =
    let remaining = drop size candidates in
    (
      take size candidates,
      if splitting && not (is_empty remaining)
          then record repo { split = remaining ∷ repo.split }
          else repo,
    )

unfoldable pub select_from :
    ℕ → Policy → Bool → Repository → List Text → Option (List Text × Repository)
unfolding entry rollup_run
select_from now p splitting repo [] = some ([], repo)
select_from now p splitting repo (first ∷ rest) = elim (entry repo first) [
  | none ↦ none
  | some e ↦
      if not splitting && ltb now (e.created + p.collect_seconds)
      then some ([], repo)
      else elim (batch_size repo p e (first ∷ rest)) [
        | none ↦ none
        | some size ↦ some (split_off splitting repo (first ∷ rest) size)
      ]
]

abbrev pub has_text : List Text → Text → Bool
has_text keys k = any (λ t. text_eq t k) keys

unfoldable pub select_group : ℕ → Repository → List Text → Policy → Option (List Text × Repository)
unfolding select_from select_where
select_group now repo eligible p = elim repo.split [
  | [] ↦ select_from now p false repo eligible
  | requested ∷ halves ↦
      select_from now p true (record repo { split = halves })
        (select_where (has_text eligible) requested)
]

-- `iter_mut().find(..)`: the first that passes is changed
unfoldable pub change_first {ℓ} : {A : Type ℓ} → (A → Bool) → (A → A) → List A → List A
change_first test change [] = []
change_first test change (x ∷ xs) =
    let rest = change_first test change xs in if test x then change x ∷ xs else x ∷ rest

-- the state of an entry when its batch ends
unfoldable pub end_state : Text → List Text → Bool → Text
end_state outcome members tries =
    if text_eq outcome (codes "merged")
    then codes "merged"
    else if text_eq outcome (codes "passed")
    then codes "passed"
    else if text_eq outcome (codes "failed") && (length members == 1 || tries)
    then codes "failed"
    else if text_eq outcome (codes "paused")
    then codes "failed"
    else codes "queued"

abbrev pub is_member : ℕ → Text → Entry → Bool
is_member id key e = text_eq e.key key && (elim e.batch [ none ↦ false | some b ↦ b == id ])

abbrev pub end_entry : Text → Text → Entry → Entry
end_entry state detail e =
    if text_eq e.state (codes "testing") then record e { state = state; detail = detail } else e

unfoldable pub end_entries : ℕ → Text → Text → List Text → List Entry → List Entry
unfolding change_first
end_entries id state detail [] entries = entries
end_entries id state detail (key ∷ keys) entries =
    end_entries id state detail keys
      (change_first (is_member id key) (end_entry state detail) entries)

abbrev pub halves : List Text → List (List Text)
halves members = take (length members / 2) members ∷ drop (length members / 2) members ∷ []

abbrev pub must_split : Text → Batch → Bool
must_split outcome b =
    text_eq outcome (codes "failed") && (ltb 1 (length b.members) && not b.try_only)

unfoldable pub finish_batch : ℕ → Repository → ℕ → Text → Text → Option Repository
unfolding change_first end_entries find_where end_state
finish_batch now repo id outcome detail =
    elim (find_where (λ (b : Batch). b.id == id) repo.batches) [
      | none ↦ none
      | some b ↦ some (record repo {
        batches =
            change_first (λ c. c.id == id)
              (λ c. record c { state = outcome; detail = detail; finished = some now })
              repo.batches;
        split = if must_split outcome b then halves b.members ++ repo.split else repo.split;
        entries =
            end_entries id (end_state outcome b.members b.try_only) detail b.members repo.entries;
        active = none;
      })
    ]
