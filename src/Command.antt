-- ===== src/Command.antt =====
-- The command vocabulary: src/config/repository.rs (identities, spellings, default modes) and
-- src/commands.rs (commands with their arguments).
pub mod Names
pub mod Tests
use xero_bot.Prelude.{Bool, true, false, Option, none, some, List, [], ◌∷◌, any, if◌then◌else◌}
use xero_bot.Text.{Text, codes, text_eq}

pub data CommandId : Type 0 where
  claim unclaim cc_id request_review ready approve reject review codeql : CommandId
  label assign author blocked ping help queue rollup try retry : CommandId

abbrev pub all_ids : List CommandId
all_ids =
    claim ∷ unclaim ∷ cc_id ∷ request_review ∷ ready ∷ approve ∷ reject ∷ review ∷ codeql ∷ label
    ∷ assign ∷ author ∷ blocked ∷ ping ∷ help ∷ queue ∷ rollup ∷ try ∷ retry ∷ []

-- `WORD_ALIASES`
abbrev pub word_aliases : List Text
word_aliases =
    codes "ping"
    ∷ codes "help"
    ∷ codes "commands"
    ∷ codes "review"
    ∷ codes "codeql"
    ∷ codes "ready"
    ∷ codes "reviewer"
    ∷ codes "author"
    ∷ codes "blocked"
    ∷ codes "claim"
    ∷ codes "take"
    ∷ codes "unclaim"
    ∷ codes "untake"
    ∷ codes "release"
    ∷ codes "release-assignment"
    ∷ codes "cc"
    ∷ codes "label"
    ∷ codes "relabel"
    ∷ codes "assign"
    ∷ codes "queue"
    ∷ codes "rollup"
    ∷ codes "rollup=always"
    ∷ codes "rollup=never"
    ∷ codes "rollup-"
    ∷ codes "try"
    ∷ codes "retry"
    ∷ []

unfoldable pub aliases : CommandId → List Text
aliases claim = codes "claim" ∷ codes "take" ∷ []
aliases unclaim =
    codes "unclaim" ∷ codes "untake" ∷ codes "release" ∷ codes "release-assignment" ∷ []
aliases cc_id = codes "cc" ∷ []
aliases request_review = codes "r?" ∷ []
aliases ready = codes "ready" ∷ codes "?r" ∷ codes "reviewer" ∷ []
aliases approve = codes "r+" ∷ codes "r=" ∷ []
aliases reject = codes "r-" ∷ []
aliases review = codes "review" ∷ []
aliases codeql = codes "codeql" ∷ []
aliases label = codes "label" ∷ codes "relabel" ∷ []
aliases assign = codes "assign" ∷ []
aliases author = codes "author" ∷ []
aliases blocked = codes "blocked" ∷ []
aliases ping = codes "ping" ∷ []
aliases help = codes "help" ∷ codes "commands" ∷ []
aliases queue = codes "queue" ∷ []
aliases rollup =
    codes "rollup" ∷ codes "rollup=always" ∷ codes "rollup=never" ∷ codes "rollup-" ∷ []
aliases try = codes "try" ∷ []
aliases retry = codes "retry" ∷ []

-- `CommandId::name`: the first spelling
unfoldable pub name : CommandId → Text
unfolding aliases
name id = elim (aliases id) [ [] ↦ [] | a ∷ _ ↦ a ]

-- `aliases().contains(&word)`
unfoldable pub has_alias : Text → CommandId → Bool
unfolding aliases text_eq
has_alias word id = any (λ a. text_eq a word) (aliases id)

unfoldable pub find_id : (CommandId → Bool) → List CommandId → Option CommandId
find_id p [] = none
find_id p (id ∷ ids) = if p id then some id else find_id p ids

-- `CommandId::from_name`
unfoldable pub from_name : Text → Option CommandId
unfolding find_id has_alias
from_name word = find_id (has_alias word) all_ids

pub data Command : Type 0 where
  ping help review ready author blocked claim unclaim try retry reject codeql queue : Command
  request_review : Text → Command
  cc_users : List Text → Command
  label : List Text → List Text → Command
  assign : Text → Command
  approve : Option Text → Command
  approve_rollup : Option Text → Bool → Command
  rollup : Bool → Command

-- `Command::id`
unfoldable pub command_id : Command → CommandId
command_id Command.claim = CommandId.claim
command_id Command.unclaim = CommandId.unclaim
command_id (cc_users _) = cc_id
command_id (Command.request_review _) = CommandId.request_review
command_id Command.ready = CommandId.ready
command_id (Command.approve _) = CommandId.approve
command_id (approve_rollup _ _) = CommandId.approve
command_id (Command.rollup _) = CommandId.rollup
command_id Command.try = CommandId.try
command_id Command.retry = CommandId.retry
command_id Command.reject = CommandId.reject
command_id Command.review = CommandId.review
command_id Command.codeql = CommandId.codeql
command_id (Command.label _ _) = CommandId.label
command_id (Command.assign _) = CommandId.assign
command_id Command.author = CommandId.author
command_id Command.blocked = CommandId.blocked
command_id Command.ping = CommandId.ping
command_id Command.help = CommandId.help
command_id Command.queue = CommandId.queue

-- `CommandId::requires_pr`
unfoldable pub id_requires_pr : CommandId → Bool
id_requires_pr CommandId.review = true
id_requires_pr CommandId.codeql = true
id_requires_pr CommandId.approve = true
id_requires_pr CommandId.reject = true
id_requires_pr CommandId.rollup = true
id_requires_pr CommandId.try = true
id_requires_pr CommandId.retry = true
id_requires_pr _ = false

-- `Command::requires_pr`
unfoldable pub requires_pr : Command → Bool
unfolding command_id id_requires_pr
requires_pr c = id_requires_pr (command_id c)
