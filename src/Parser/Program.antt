-- ===== src/Parser/Program.antt =====
-- `mention_command`, `program` and `parse` of src/commands/parse.rs.
use xero_bot.Parser.Args.{is_empty}
use xero_bot.Parser.Verbs.{short_ready_command, bare_review_request}
use xero_bot.Text.{Text}
use xero_bot.Parser.Tail.{verb_tail}
use xero_bot.Lexer.{Tok, Token, bot, review_req, semi, newline}
use xero_bot.Parser.State.{
  Parser, ParsedCommand, advance, addressed_after, Diagnostic, at_boundary, peek, new, span,
  segment_start, incomplete,
}
use xero_bot.Prelude.{
  List, Option, ℕ, if◌then◌else◌, length, Bool, suc, ◌&&◌, false, some, ◌==◌, ◌+◌, ◌||◌, true, zero,
  take, none, not,
}

abbrev pub is_semi_next : Parser → Bool
is_semi_next p = elim (peek p) [ some Tok.semi ↦ true | _ ↦ false ]

-- the loop of `mention_command`, on fuel: each further round has taken a semicolon
unfoldable pub mention_rounds : ℕ → Bool → Parser → Parser
mention_rounds zero addressed p = p
mention_rounds (suc fuel) addressed p =
    let q = verb_tail addressed p in
    let again = mention_rounds fuel addressed (advance q) in
    if is_semi_next q then (if at_boundary (advance q) then advance q else again) else q

unfoldable pub mention_command : Parser → Parser
mention_command p =
    let addressed = addressed_after p.past in
    let q =
      mention_rounds (length p.rest + 1) addressed
        (advance (record p { mention = some (span p) })) in
    record q { mention = none }

-- an approval symbol without a mention; outside a block its candidates are dropped
unfoldable pub bare_approval : Parser → Parser
bare_approval p =
    let q = verb_tail false p in
    if q.strict then q else record q { commands = take (length p.commands) q.commands }

unfoldable pub semicolon : Parser → Parser
semicolon p = advance (if p.strict && segment_start p then incomplete p else p)

-- the last two arms of the `match`
unfoldable pub other_entry : Parser → Parser
other_entry p = if p.strict then verb_tail false p else advance p

unfoldable pub approval_entry : Parser → Parser
approval_entry p = if p.strict || segment_start p then bare_approval p else other_entry p

unfoldable pub entry : Option Tok → Parser → Parser
entry (some bot) p = mention_command p
entry (some Tok.short_ready) p = short_ready_command p
entry (some review_req) p = if not p.strict then bare_review_request p else other_entry p
entry (some semi) p = semicolon p
entry (some newline) p = advance p
entry (some Tok.approve) p = approval_entry p
entry (some Tok.approve_as) p = approval_entry p
entry (some Tok.reject) p = approval_entry p
entry _ p = other_entry p

-- a token that no arm takes is passed, and the block is not complete
unfoldable pub must_advance : ℕ → Parser → Parser
must_advance before p = if length p.past == before then advance (incomplete p) else p

unfoldable pub rounds : ℕ → Parser → Parser
rounds zero p = p
rounds (suc fuel) p =
    let again = rounds fuel (must_advance (length p.past) (entry (peek p) p)) in
    if is_empty p.rest then p else again

unfoldable pub program : Parser → Parser
program p = rounds (length p.rest) p

-- `Parsed`
pub record Parsed : Type 0 where
  pub commands : List ParsedCommand
  pub diagnostics : List Diagnostic

unfoldable pub finish : Parser → Parsed
finish p = record { commands = p.commands; diagnostics = p.diagnostics }

unfoldable pub parse : List Token → Text → Bool → Parsed
parse toks text unmasked =
    let block = program (new toks text true) in
    let scan = program (new toks text false) in
    if unmasked && (block.complete && is_empty block.diagnostics) then finish block else finish scan
