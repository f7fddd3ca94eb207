-- ===== src/Pipeline/Tests.antt =====
-- Runs on the inputs of the tests of src/commands.rs.
use xero_bot.Parser.Program.{parse}
use xero_bot.Lexer.{lex}
use xero_bot.Parser.Scan.{NeedsNoMention}
use xero_bot.Pipeline.Governance.{IsBlock, parse_commands-NeedsNoMention, parse-NeedsNoMention}
use xero_bot.Mask.{mask}
use xero_bot.Lexer.Tests.{ascii_only}
use xero_bot.Command.{Command, cc_users}
use xero_bot.Prelude.{List, ◌≡◌, ◌∷◌, [], refl, some, ◌++◌, true, All, ◌≢◌, ◌⊎◌}
use xero_bot.Resolve.{resolve}
use xero_bot.Pipeline.{parse_commands, mask, lex, parse}
use xero_bot.Text.{Text, to_ascii_lowercase, codes}

abbrev ascii_lower : Text → Text
ascii_lower s = to_ascii_lowercase s

abbrev commands_in : Text → List Command
commands_in text =
    (resolve ascii_lower (codes "bot") (parse_commands ascii_only (codes "bot") text).commands []).0

bare_r_question : commands_in (codes "r? @octocat") ≡ Command.request_review (codes "octocat") ∷ []
unfolding parse_commands resolve
bare_r_question = refl

short_ready_with_cc :
    commands_in (codes "?r cc @alice @bob")
    ≡ Command.ready ∷ cc_users (codes "alice" ∷ codes "bob" ∷ []) ∷ []
unfolding parse_commands resolve
short_ready_with_cc = refl

label_takes_both_signs :
    commands_in (codes "@bot label +bug +A-compiler -wip")
    ≡ Command.label (codes "bug" ∷ codes "A-compiler" ∷ []) (codes "wip" ∷ []) ∷ []
unfolding parse_commands resolve
label_takes_both_signs = refl

approval_on_behalf :
    commands_in (codes "@bot r+ as @octocat") ≡ Command.approve (some (codes "octocat")) ∷ []
unfolding parse_commands resolve
approval_on_behalf = refl

queue_chains : commands_in (codes "@bot ping; queue") ≡ Command.ping ∷ Command.queue ∷ []
unfolding parse_commands resolve
queue_chains = refl

queue_is_a_bare_verb : commands_in (codes "queue") ≡ Command.queue ∷ []
unfolding parse_commands resolve
queue_is_a_bare_verb = refl

bare_verb_in_prose : commands_in (codes "queue this later") ≡ []
unfolding parse_commands resolve
bare_verb_in_prose = refl

code_is_ignored : commands_in (codes "```" ++ 10 ∷ codes "r? @octocat" ++ 10 ∷ codes "```") ≡ []
unfolding parse_commands resolve
code_is_ignored = refl

arguments_end_at_the_line :
    commands_in (codes "@bot cc @alice" ++ 10 ∷ codes "something about @bob and @carol later")
    ≡ cc_users (codes "alice" ∷ []) ∷ []
unfolding parse_commands resolve
arguments_end_at_the_line = refl

arguments_end_at_a_mention :
    commands_in (codes "@bot cc @alice @bot assign @bob")
    ≡ cc_users (codes "alice" ∷ []) ∷ Command.assign (codes "bob") ∷ []
unfolding parse_commands resolve
arguments_end_at_a_mention = refl

unknown_verb : commands_in (codes "@bot do the thing please") ≡ []
unfolding parse_commands resolve
unknown_verb = refl

question_does_not_cross_lines :
    commands_in (codes "who should review this r?" ++ 10 ∷ codes "Maybe next week") ≡ []
unfolding parse_commands resolve
question_does_not_cross_lines = refl

last_status_wins :
    commands_in (codes "@bot ready" ++ 10 ∷ codes "@bot blocked") ≡ Command.blocked ∷ []
unfolding parse_commands resolve
last_status_wins = refl

bot_is_not_asked : commands_in (codes "r? @bot") ≡ []
unfolding parse_commands resolve
bot_is_not_asked = refl

abbrev quoted : Text
quoted = codes "> r+" ++ 10 ∷ codes "r? @alice"

quoted_is_masked : mask quoted ≢ quoted
unfolding mask
quoted_is_masked h = cc

parse_commands-NeedsNoMention_example :
    All NeedsNoMention (parse_commands ascii_only (codes "bot") quoted).commands
parse_commands-NeedsNoMention_example =
    parse_commands-NeedsNoMention ascii_only (codes "bot") quoted quoted_is_masked

parse-NeedsNoMention_example :
    ((true ≡ true) × IsBlock (lex ascii_only (codes "bot") (codes "r+ today")) (codes "r+ today"))
    ⊎ All NeedsNoMention
        (parse (lex ascii_only (codes "bot") (codes "r+ today")) (codes "r+ today") true).commands
parse-NeedsNoMention_example =
    parse-NeedsNoMention (lex ascii_only (codes "bot") (codes "r+ today")) (codes "r+ today") true
