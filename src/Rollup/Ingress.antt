-- ===== src/Rollup/Ingress.antt =====
-- The queue's mutation by a command: src/rollup/ingress.rs, `apply`, after all remote authorization. The
-- replies are named by what they say.
use xero_bot.Text.{Text, text_eq, codes, eq_ignore_ascii_case, to_ascii_lowercase}
use xero_bot.Prelude.{
  Bool, true, false, not, Option, none, some, ℕ, List, [], ◌∷◌, ◌++◌, ◌&&◌, ◌||◌, ◌==◌, ltb, leb,
  drop, length, if◌then◌else◌,
}
use xero_bot.Command.{Command}
use xero_bot.Store.Table.{find_where}
use xero_bot.Rollup.{Repository, Entry, Origin}
use xero_bot.Rollup.Engine.{has_text, change_first}

-- the arguments of `apply` that a decision is made of
pub record Decision : Type 0 where
  pub origin : Origin
  pub number : ℕ
  pub head : Text
  pub approver : Text
  pub source_time : ℕ
  pub comment_id : ℕ

pub data QueueError : Type 0 where
  newer_decision nothing_to_retry approve_first running_batch approval_invalid unsupported :
      QueueError

pub data Reply : Type 0 where
  recorded_before already_testing recorded : Reply

pub data Outcome : Type 0 where
  done : Reply → Repository → Outcome
  refused : QueueError → Outcome

-- what a command does to the entry: the last field says whether the next attempt is at once
pub data Change : Type 0 where
  keeps : Change
  refuses : QueueError → Change
  becomes : Entry → Bool → Change

abbrev pub is_same_pr : Decision → Entry → Bool
is_same_pr d e =
    not (text_eq e.state (codes "superseded"))
    && ((ltb 0 d.number && e.number == d.number)
        || (text_eq e.origin.provider d.origin.provider
            && (eq_ignore_ascii_case e.origin.repo d.origin.repo
                && e.origin.number == d.origin.number)))

abbrev pub is_newer : Decision → Entry → Bool
is_newer d e =
    ltb d.source_time e.decision_time
    || (d.source_time == e.decision_time
        && ((text_eq e.decision_provider d.origin.provider && leb d.comment_id e.decision_comment)
            || (text_eq e.state (codes "cancelled")
                && not (text_eq e.decision_provider d.origin.provider))))

-- `digits` prints a number
abbrev pub new_key : (ℕ → Text) → Decision → Text
new_key digits d =
    d.origin.provider
    ++ codes ":"
    ++ to_ascii_lowercase d.origin.repo
    ++ codes ":"
    ++ digits d.origin.number

abbrev pub key_of : (ℕ → Text) → Decision → Option Entry → Text
key_of digits d none = new_key digits d
key_of digits d (some e) = e.key

abbrev pub old_rollup : Option Entry → Bool
old_rollup none = false
old_rollup (some e) = e.rollup

abbrev pub new_entry : (ℕ → Text) → Decision → Option Entry → Bool → Bool → Bool → Entry
new_entry digits d old rollup tries rejects = record {
  key = key_of digits d old;
  number = d.number;
  head = d.head;
  title = [];
  approved_by = d.approver;
  origin = d.origin;
  rollup = rollup;
  try_only = tries;
  created = d.source_time;
  decision_time = d.source_time;
  decision_comment = d.comment_id;
  decision_provider = d.origin.provider;
  state =
      if rejects
      then codes "cancelled"
      else if d.number == 0
      then codes "waiting"
      else codes "queued";
  detail = if d.number == 0 then codes "等待 PR 双向同步" else codes "等待组批";
  batch = none;
}

abbrev pub is_testing : Entry → Bool
is_testing e = text_eq e.state (codes "testing")

-- the first arm of the match, for a command that approves or tries
abbrev pub approval : (ℕ → Text) → Decision → Option Entry → Bool → Bool → Change
approval digits d none rollup tries = becomes (new_entry digits d none rollup tries false) false
approval digits d (some e) rollup tries =
    if is_testing e && text_eq e.head d.head
    then keeps
    else becomes (new_entry digits d (some e) rollup tries false) false

abbrev pub is_final : Text → Bool
is_final state =
    text_eq state (codes "cancelled")
    || (text_eq state (codes "stale") || text_eq state (codes "merged"))

abbrev pub retry_entry : Decision → Entry → Change
retry_entry d e =
    if not (text_eq e.head d.head) || is_final e.state
    then refuses approval_invalid
    else if is_testing e
    then becomes e true
    else becomes (record e { state = codes "queued"; batch = none; detail = codes "等待重试" }) true

unfoldable pub change_of : (ℕ → Text) → Command → Decision → Option Entry → Change
change_of digits (Command.approve _) d old = approval digits d old (old_rollup old) false
change_of digits (Command.approve_rollup _ enabled) d old = approval digits d old enabled false
change_of digits Command.try d old = approval digits d old (old_rollup old) true
change_of digits Command.reject d none = becomes (new_entry digits d none false false true) false
change_of digits Command.reject d (some e) =
    becomes
      (record e { state = codes "cancelled"; detail = codes "合并授权已撤销"; created = d.source_time })
      false
change_of digits (Command.rollup enabled) d none = refuses approve_first
change_of digits (Command.rollup enabled) d (some e) =
    if is_testing e then refuses running_batch else becomes (record e { rollup = enabled }) false
change_of digits Command.retry d none = refuses nothing_to_retry
change_of digits Command.retry d (some e) = retry_entry d e
change_of digits _ d old = refuses unsupported

abbrev pub stamp : Decision → Entry → Entry
stamp d e = record e {
  decision_time = d.source_time;
  decision_comment = d.comment_id;
  decision_provider = d.origin.provider;
}

-- `Repository::remember`
unfoldable pub remember : List Text → Text → List Text
remember commands key =
    if ltb 10000 (length (commands ++ key ∷ []))
    then drop 1000 (commands ++ key ∷ [])
    else commands ++ key ∷ []

abbrev pub put_entry : Decision → Option Entry → Entry → List Entry → List Entry
put_entry d none e entries = entries ++ e ∷ []
put_entry d (some _) e entries = change_first (is_same_pr d) (λ _. e) entries

abbrev pub finish_change : Decision → Text → Repository → Option Entry → Change → Outcome
finish_change d key repo old keeps = done already_testing repo
finish_change d key repo old (refuses error) = refused error
finish_change d key repo old (becomes e at_once) = done recorded (record repo {
  entries = put_entry d old (stamp d e) repo.entries;
  commands = remember repo.commands key;
  next_attempt = if at_once then 0 else repo.next_attempt;
})

abbrev pub is_superseded : Decision → Option Entry → Bool
is_superseded d none = false
is_superseded d (some e) = is_newer d e

unfoldable pub apply_command : (ℕ → Text) → Command → Decision → Text → Repository → Outcome
unfolding find_where change_of remember change_first
apply_command digits command d key repo =
    let old = find_where (is_same_pr d) repo.entries in
    if has_text repo.commands key
    then done recorded_before repo
    else if is_superseded d old
    then refused newer_decision
    else finish_change d key repo old (change_of digits command d old)
