-- ===== src/Parser/Tail.antt =====
-- `verb_tail` of src/commands/parse.rs, a function for each of its branches.
use xero_bot.Suggest.{suggest}
use xero_bot.Parser.Args.{end_arguments, user_list, single_user, touches, is_some, label_args}
use xero_bot.Parser.Verbs.{scan_symbolic_tail, emit_cc, approve_args, short_ready_command}
use xero_bot.Text.{Text, text_eq, codes}
use xero_bot.Lexer.{Tok, user, Token, word, plus, minus, review_req}
use xero_bot.Prelude.{
  Bool, ℕ, List, Option, if◌then◌else◌, [], some, ◌&&◌, true, false, ◌∷◌, none, not, ◌||◌,
}
use xero_bot.Parser.State.{
  Parser, incomplete, Span, peek, diagnose, span, SourceForm, skip_filler, ignored_arguments,
  token_span, bare_word, advance, emit, unknown_verb, symbol, at_boundary, is_boundary,
  explicit_mention, skip_tail, extra,
}
use xero_bot.Command.{Command, CommandId, from_name, name, cc_id}

-- `nullary`
unfoldable pub nullary_of : Option CommandId → Option Command
nullary_of (some CommandId.ping) = some Command.ping
nullary_of (some CommandId.help) = some Command.help
nullary_of (some CommandId.review) = some Command.review
nullary_of (some CommandId.codeql) = some Command.codeql
nullary_of (some CommandId.ready) = some Command.ready
nullary_of (some CommandId.author) = some Command.author
nullary_of (some CommandId.blocked) = some Command.blocked
nullary_of (some CommandId.claim) = some Command.claim
nullary_of (some CommandId.unclaim) = some Command.unclaim
nullary_of (some CommandId.queue) = some Command.queue
nullary_of _ = none

unfoldable pub nullary : Text → Option Command
unfolding nullary_of
nullary w = nullary_of (from_name w)

abbrev pub source_of : Option Span → SourceForm
source_of none = bare_word
source_of (some _) = explicit_mention

abbrev pub is_queue_verb : Option CommandId → Bool
is_queue_verb (some CommandId.rollup) = true
is_queue_verb (some CommandId.try) = true
is_queue_verb (some CommandId.retry) = true
is_queue_verb _ = false

-- the command of a word that `is_queue_verb`
unfoldable pub queue_command : Text → Command
queue_command w =
    if text_eq w (codes "try")
    then Command.try
    else if text_eq w (codes "retry")
    then Command.retry
    else Command.rollup (text_eq w (codes "rollup") || text_eq w (codes "rollup=always"))

unfoldable pub queue_verb : Text → ℕ → Parser → Parser
queue_verb w start p =
    let (valid, q) = end_arguments (codes "rollup/try/retry") p in
    if valid then emit (queue_command w) start (source_of p.mention) q else q

abbrev pub is_bot_next : Parser → Bool
is_bot_next p = elim (peek p) [ some Tok.bot ↦ true | _ ↦ false ]

abbrev takes_argument : Tok → Bool
takes_argument (user _) = true
takes_argument (plus _) = true
takes_argument (minus _) = true
takes_argument _ = false

-- whether an argument follows before the boundary
unfoldable pub argument_follows : List Token → Bool
argument_follows [] = false
argument_follows (u ∷ us) =
    not (is_boundary (some u.tok)) && (takes_argument u.tok || argument_follows us)

-- What follows the candidate of a command without arguments, outside a block. The verb is looked up
-- in the vocabulary, where it is the word itself.
unfoldable pub nullary_tail : Text → Parser → Parser
nullary_tail w p =
    scan_symbolic_tail
      (if argument_follows p.rest then diagnose (ignored_arguments w (span p)) p else p)

unfoldable pub nullary_verb : Text → Command → ℕ → Parser → Parser
nullary_verb w cmd start p =
    if p.strict && (not (at_boundary p) || not (is_some p.mention) && is_bot_next p)
    then skip_tail (incomplete p)
    else (let q = emit cmd start (source_of p.mention) p in
        if q.strict then q else nullary_tail w q)

abbrev pub takes_list : Option CommandId → Bool
takes_list (some cc_id) = true
takes_list (some CommandId.assign) = true
takes_list (some CommandId.label) = true
takes_list _ = false

abbrev pub last_span : List Token → Span
last_span [] = record { from = 0; to = 0 }
last_span (u ∷ us) = token_span u

unfoldable pub unknown_word : Text → Bool → Parser → Parser
unknown_word w report p =
    let q = incomplete p in
    let r = if report then diagnose (unknown_verb w (suggest w) (last_span q.past)) q else q in
    if r.strict then skip_tail r else scan_symbolic_tail r

unfoldable pub argument_verb : Option CommandId → Text → ℕ → Bool → Parser → Parser
argument_verb (some cc_id) w start report p = emit_cc start (source_of p.mention) (user_list p)
argument_verb (some CommandId.assign) w start report p =
    single_user (codes "assign") start (source_of p.mention) p
argument_verb (some CommandId.label) w start report p = label_args start (source_of p.mention) p
argument_verb _ w start report p = unknown_word w report p

abbrev id_name : Option CommandId → Text
id_name none = []
id_name (some id) = name id

unfoldable pub list_verb : Option CommandId → Text → ℕ → Bool → Parser → Parser
list_verb id w start report p =
    if takes_list id && not (at_boundary p) && touches p
    then extra (id_name id) p
    else argument_verb id w start report p

-- a word that is no queue verb
unfoldable pub other_verb : Option Command → Text → ℕ → Bool → Parser → Parser
other_verb (some cmd) w start report p = nullary_verb w cmd start p
other_verb none w start report p = list_verb (from_name w) w start report p

-- the `Word` branch, after the word; `report` is `addressed && !after_prose`
unfoldable pub word_verb : Text → ℕ → Bool → Parser → Parser
word_verb w start report p =
    if is_queue_verb (from_name w)
    then queue_verb w start p
    else other_verb (nullary w) w start report p

unfoldable pub reject_args : ℕ → Parser → Parser
reject_args start p =
    let (valid, q) = end_arguments (codes "r-") p in
    if valid then emit Command.reject start symbol q else q

unfoldable pub tail_at : Option Tok → ℕ → Bool → Parser → Parser
tail_at (some (word w)) start report p = word_verb w start report (advance p)
tail_at (some review_req) start report p = single_user (codes "r?") start symbol (advance p)
tail_at (some Tok.approve) start report p = approve_args p
tail_at (some Tok.approve_as) start report p = approve_args p
tail_at (some Tok.reject) start report p = reject_args start (advance p)
tail_at (some Tok.short_ready) start report p = short_ready_command p
tail_at _ start report p = incomplete p

-- the fillers are skipped outside a block only
unfoldable pub lead_in : Parser → Parser × Bool
lead_in p = if p.strict then (p, false) else skip_filler p

unfoldable pub verb_tail : Bool → Parser → Parser
verb_tail addressed p =
    let (q, after_prose) = lead_in p in
    tail_at (peek q) (span q).from (addressed && not after_prose) q
