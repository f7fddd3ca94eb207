-- ===== src/Parser/Verbs.antt =====
-- One command after its entry point: `short_ready`, `bare_review_request`, `scan_symbolic_tail`,
-- `approve_args` and `verb_tail` of src/commands/parse.rs.
use xero_bot.Parser.Args.{is_some, Users, user_list, end_arguments, user_arg}
use xero_bot.Lexer.{Tok, user, word, review_req}
use xero_bot.Parser.State.{
  Parser, peek, skip_tail, last_end, Span, SourceForm, span, skip_filler, emit, at_boundary, symbol,
  ParsedCommand, advance, incomplete,
}
use xero_bot.Text.{Text, text_eq, codes}
use xero_bot.Prelude.{
  Option, ℕ, if◌then◌else◌, Bool, suc, length, some, List, ◌+◌, ◌&&◌, not, true, ◌||◌, zero, none,
  false, ◌∷◌, [],
}
use xero_bot.Command.{Command, approve_rollup, cc_users}

-- `if !self.strict { self.skip_filler(); }`
unfoldable pub skip_loose : Parser → Parser
skip_loose p = if p.strict then p else (skip_filler p).0

-- the commands from the n-th on take the span of the expression that they stand in
unfoldable pub compound_from : ℕ → Span → List ParsedCommand → List ParsedCommand
compound_from n s [] = []
compound_from zero s (c ∷ cs) = record c { compound_span = some s } ∷ compound_from zero s cs
compound_from (suc n) s (c ∷ cs) = c ∷ compound_from n s cs

unfoldable pub ready_reviewer : Option Tok → Parser → Parser
ready_reviewer (some (user u)) p = emit (Command.request_review u) (span p).from symbol (advance p)
ready_reviewer _ p = p

unfoldable pub emit_cc : ℕ → SourceForm → Users → Parser
emit_cc start source (some users, p) = emit (cc_users users) start source p
emit_cc start source (none, p) = p

unfoldable pub ready_cc : Option Tok → Parser → Parser
ready_cc (some (word w)) p =
    if text_eq w (codes "cc") then emit_cc (span p).from symbol (user_list (advance p)) else p
ready_cc _ p = p

unfoldable pub ready_end : ℕ → ℕ → Parser → Parser
ready_end first start p =
    let q = record p {
      commands = compound_from first (record { from = start; to = last_end p.past }) p.commands;
    } in
    if q.strict && not (at_boundary q) then incomplete q else q

unfoldable pub short_ready_command : Parser → Parser
short_ready_command p =
    let start = (span p).from in
    let q = skip_loose (emit Command.ready start symbol (advance p)) in
    let r = skip_loose (ready_reviewer (peek q) q) in
    ready_end (length p.commands) start (ready_cc (peek r) r)

unfoldable pub request_user : ℕ → Option Tok → Parser → Parser
request_user start (some (user u)) p = emit (Command.request_review u) start symbol (advance p)
request_user start _ p = p

unfoldable pub bare_review_request : Parser → Parser
bare_review_request p =
    let start = (span p).from in
    let q = (skip_filler (advance p)).0 in request_user start (peek q) q

-- a round of `scan_symbolic_tail`
unfoldable pub symbolic_round : Option Tok → Parser → Parser
symbolic_round (some Tok.short_ready) p = short_ready_command p
symbolic_round (some review_req) p = bare_review_request p
symbolic_round _ p = advance p

unfoldable pub symbolic_rounds : ℕ → Parser → Parser
symbolic_rounds zero p = p
symbolic_rounds (suc fuel) p =
    let rest = symbolic_rounds fuel (symbolic_round (peek p) p) in if at_boundary p then p else rest

unfoldable pub scan_symbolic_tail : Parser → Parser
scan_symbolic_tail p = symbolic_rounds (length p.rest + 1) p

unfoldable pub reads_rollup : Text → Option Bool
reads_rollup w =
    if text_eq w (codes "rollup") || text_eq w (codes "rollup=always")
    then some true
    else if text_eq w (codes "rollup=never") || text_eq w (codes "rollup-")
    then some false
    else none

-- the `rollup` match of `approve_args`
unfoldable pub rollup_of : Option Tok → Option Bool
unfolding reads_rollup
rollup_of (some (word w)) = reads_rollup w
rollup_of _ = none

abbrev pub is_as : Option Tok → Bool
is_as (some Tok.as_word) = true
is_as _ = false

abbrev pub is_approve_as : Option Tok → Bool
is_approve_as (some Tok.approve_as) = true
is_approve_as _ = false

unfoldable pub approve_command : Option Text → Option Bool → Command
approve_command target none = Command.approve target
approve_command target (some enabled) = approve_rollup target enabled

-- `approve_args` once the target is known
unfoldable pub approve_end : Text → ℕ → Option Text → Parser → Parser
approve_end verb start target p =
    let rollup = rollup_of (peek p) in
    let q = if is_some rollup then advance p else p in
    let (valid, r) = end_arguments verb q in
    if valid then emit (approve_command target rollup) start symbol r else r

unfoldable pub approve_target : Text → ℕ → Option Text × Parser → Parser
approve_target verb start (none, p) = skip_tail p
approve_target verb start (some u, p) = approve_end verb start (some u) p

-- a target is read if one is wanted or written
unfoldable pub approve_from : Text → ℕ → Bool → Parser → Parser
approve_from verb start wanted p =
    if wanted || not (at_boundary p) && not (is_some (rollup_of (peek p)))
    then approve_target verb start (user_arg verb p)
    else approve_end verb start none p

unfoldable pub approve_args : Parser → Parser
approve_args p =
    let start = (span p).from in
    let required = is_approve_as (peek p) in
    let q = advance p in
    let has_as = is_as (peek q) in
    approve_from (if required then codes "r=" else codes "r+") start (required || has_as)
      (if has_as && not required then advance q else q)
