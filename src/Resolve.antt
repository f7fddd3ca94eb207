-- ===== src/Resolve.antt =====
-- src/commands/resolve.rs: the policy within one comment, on the candidates that were permitted.
-- A stable sort by a key has one result: insertion from the back.
pub mod Equality
pub mod Laws
pub mod Resolved
pub mod Survives
pub mod Complete
pub mod Tests
use xero_bot.Mask.{trim_start}
use xero_bot.Text.{Text, text_eq, without_suffix, codes}
use xero_bot.Prelude.{
  none, some, Option, Bool, List, true, ◌∷◌, any, [], reverse, if◌then◌else◌, ℕ, not, leb, ◌&&◌,
  ltb, ◌+◌, false, ◌++◌, length,
}
use xero_bot.Command.{Command, approve_rollup, cc_users}
use xero_bot.Parser.State.{
  Diagnostic, ParsedCommand, duplicate_command, self_request_ignored, conflicting_status,
}

unfoldable pub insert_by_start : ParsedCommand → List ParsedCommand → List ParsedCommand
insert_by_start c [] = c ∷ []
insert_by_start c (d ∷ ds) =
    let further = d ∷ insert_by_start c ds in
    if leb c.span.from d.span.from then c ∷ d ∷ ds else further

-- `sort_by_key(|c| c.span.start)`
unfoldable pub sort_by_start : List ParsedCommand → List ParsedCommand
unfolding insert_by_start
sort_by_start [] = []
sort_by_start (c ∷ cs) = insert_by_start c (sort_by_start cs)

unfoldable pub trim : Text → Text
trim s = reverse (trim_start (reverse (trim_start s)))

abbrev pub is_status : Command → Bool
is_status Command.ready = true
is_status Command.author = true
is_status Command.blocked = true
is_status _ = false

unfoldable pub status_name : Command → Text
status_name Command.ready = codes "ready"
status_name Command.author = codes "author"
status_name Command.blocked = codes "blocked"
status_name _ = codes "status"

unfoldable pub command_name : Command → Text
command_name Command.ping = codes "ping"
command_name Command.help = codes "help"
command_name Command.review = codes "review"
command_name Command.codeql = codes "codeql"
command_name Command.ready = codes "ready"
command_name Command.author = codes "author"
command_name Command.blocked = codes "blocked"
command_name Command.claim = codes "claim"
command_name Command.unclaim = codes "unclaim"
command_name Command.reject = codes "r-"
command_name (Command.approve _) = codes "r+"
command_name (approve_rollup _ _) = codes "r+"
command_name (Command.rollup _) = codes "rollup"
command_name Command.try = codes "try"
command_name Command.retry = codes "retry"
command_name (Command.request_review u) = codes "r? @" ++ u
command_name (Command.assign u) = codes "assign @" ++ u
command_name (cc_users _) = codes "cc"
command_name (Command.label _ _) = codes "label"
command_name Command.queue = codes "queue"

unfoldable pub texts_eq : List Text → List Text → Bool
texts_eq [] [] = true
texts_eq (a ∷ s) (b ∷ t) = text_eq a b && texts_eq s t
texts_eq _ _ = false

abbrev pub target_eq : Option Text → Option Text → Bool
target_eq none none = true
target_eq (some a) (some b) = text_eq a b
target_eq _ _ = false

abbrev pub bool_eq : Bool → Bool → Bool
bool_eq true b = b
bool_eq false b = not b

-- the derived `PartialEq` of `Command`
unfoldable pub command_eq : Command → Command → Bool
unfolding texts_eq
command_eq Command.ping Command.ping = true
command_eq Command.help Command.help = true
command_eq Command.review Command.review = true
command_eq Command.ready Command.ready = true
command_eq Command.author Command.author = true
command_eq Command.blocked Command.blocked = true
command_eq Command.claim Command.claim = true
command_eq Command.unclaim Command.unclaim = true
command_eq Command.try Command.try = true
command_eq Command.retry Command.retry = true
command_eq Command.reject Command.reject = true
command_eq Command.codeql Command.codeql = true
command_eq Command.queue Command.queue = true
command_eq (Command.request_review a) (Command.request_review b) = text_eq a b
command_eq (cc_users a) (cc_users b) = texts_eq a b
command_eq (Command.label a r) (Command.label b s) = texts_eq a b && texts_eq r s
command_eq (Command.assign a) (Command.assign b) = text_eq a b
command_eq (Command.approve a) (Command.approve b) = target_eq a b
command_eq (approve_rollup a e) (approve_rollup b f) = target_eq a b && bool_eq e f
command_eq (Command.rollup a) (Command.rollup b) = bool_eq a b
command_eq _ _ = false

unfoldable pub status_commands : List ParsedCommand → List Command
status_commands [] = []
status_commands (c ∷ cs) =
    let rest = status_commands cs in if is_status c.command then c.command ∷ rest else rest

-- the names of all but the last, and of the last
unfoldable pub dropped_names : List Command → List Text
dropped_names [] = []
dropped_names (c ∷ []) = []
dropped_names (c ∷ d ∷ ds) = status_name c ∷ dropped_names (d ∷ ds)

unfoldable pub kept_name : List Command → Text
kept_name [] = []
kept_name (c ∷ []) = status_name c
kept_name (c ∷ d ∷ ds) = kept_name (d ∷ ds)

abbrev pub has_status : List ParsedCommand → Bool
has_status cs = any (λ c. is_status c.command) cs

-- the filter on positions: a status goes if a later one stands behind it
unfoldable pub drop_earlier : List ParsedCommand → List ParsedCommand
drop_earlier [] = []
drop_earlier (c ∷ cs) =
    let rest = drop_earlier cs in if is_status c.command && has_status cs then rest else c ∷ rest

unfoldable pub status_pass :
    List ParsedCommand → List Diagnostic → List ParsedCommand × List Diagnostic
status_pass cs diags =
    let statuses = status_commands cs in
    if ltb 1 (length statuses)
    then (
      drop_earlier cs,
      diags ++ conflicting_status (kept_name statuses) (dropped_names statuses) ∷ [],
    )
    else (cs, diags)

-- `dupes`: the repeated commands with their counts
unfoldable pub count_dupe : Text → List (Text × ℕ) → List (Text × ℕ)
count_dupe name [] = (name, 2) ∷ []
count_dupe name ((n, k) ∷ ds) =
    let further = (n, k) ∷ count_dupe name ds in if text_eq n name then (n, k + 1) ∷ ds else further

abbrev pub contains_command : List Command → Command → Bool
contains_command out c = any (λ d. command_eq d c) out

unfoldable pub add_new : List Command → Command → List Command
add_new out c = if contains_command out c then out else out ++ c ∷ []

unfoldable pub note_dupe : List Command → Command → List (Text × ℕ) → List (Text × ℕ)
unfolding count_dupe
note_dupe out c dupes = if contains_command out c then count_dupe (command_name c) dupes else dupes

-- the loop that collapses exact repeats
unfoldable pub collapse :
    List Command → List (Text × ℕ) → List ParsedCommand → List Command × List (Text × ℕ)
collapse out dupes [] = (out, dupes)
collapse out dupes (c ∷ cs) = collapse (add_new out c.command) (note_dupe out c.command dupes) cs

unfoldable pub dupe_diagnostics : List (Text × ℕ) → List Diagnostic
dupe_diagnostics [] = []
dupe_diagnostics ((what, times) ∷ ds) = duplicate_command what times ∷ dupe_diagnostics ds

-- `str::to_lowercase` is the standard library's Unicode mapping: a parameter.
module _ (to_lowercase : Text → Text) where
  -- `normalize_login` of src/github.rs
  unfoldable pub normalize_login : Text → Text
  unfolding trim
  normalize_login login = without_suffix (codes "[bot]") (to_lowercase (trim login))

  unfoldable pub is_self_request : Text → Command → Bool
  unfolding normalize_login
  is_self_request me (Command.request_review u) = text_eq (normalize_login u) me
  is_self_request me (Command.assign u) = text_eq (normalize_login u) me
  is_self_request me _ = false

  -- the `retain` pass
  unfoldable pub retain :
      Text → List ParsedCommand → List Diagnostic → List ParsedCommand × List Diagnostic
  retain me [] diags = ([], diags)
  retain me (c ∷ cs) diags =
      let self = is_self_request me c.command in
      let r = retain me cs (if self then diags ++ self_request_ignored c.span ∷ [] else diags) in
      (if self then r.0 else c ∷ r.0, r.1)

  unfoldable pub resolve :
      Text → List ParsedCommand → List Diagnostic → List Command × List Diagnostic
  unfolding retain normalize_login is_self_request sort_by_start insert_by_start status_pass
      status_commands status_name kept_name dropped_names drop_earlier collapse add_new note_dupe
      count_dupe command_name command_eq texts_eq dupe_diagnostics text_eq trim trim_start
      without_suffix
  resolve bot_name parsed diags =
      let (kept, diags1) = retain (normalize_login bot_name) (sort_by_start parsed) diags in
      let (single, diags2) = status_pass kept diags1 in
      let (out, dupes) = collapse [] [] single in (out, diags2 ++ dupe_diagnostics dupes)
