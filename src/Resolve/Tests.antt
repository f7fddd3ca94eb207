-- ===== src/Resolve/Tests.antt =====
-- Candidates that repeat one another, that ask the bot, and that set a status twice.
use xero_bot.Prelude.{
  Member, refl, List, All, ℕ, ◌+◌, [], ◌∷◌, ◌≡◌, none, true, false, ◌≤◌, there, here, ◌⊎◌,
}
use xero_bot.Resolve.Complete.{resolve_complete}
use xero_bot.Resolve.Resolved.{resolve-Distinct, resolve-All}
use xero_bot.Parser.State.{
  ParsedCommand, symbol, self_request_ignored, conflicting_status, duplicate_command,
}
use xero_bot.Resolve.Laws.{Distinct, statuses}
use xero_bot.Command.{Command}
use xero_bot.Text.{Text, codes, take_while, is_whitespace}
use xero_bot.Resolve.{
  resolve, contains_command, ParsedCommand, is_self_request, codes, normalize_login, is_status,
}

abbrev candidate : Command → ℕ → ParsedCommand
candidate command at = record {
  command = command;
  span = record { from = at; to = at + 1 };
  source = symbol;
  mention_span = none;
  compound_span = none;
}

abbrev candidates : List ParsedCommand
candidates =
    candidate Command.ready 8
    ∷ candidate Command.ping 4
    ∷ candidate (Command.assign (codes "bot[bot]")) 0
    ∷ candidate Command.ping 6
    ∷ candidate Command.blocked 2
    ∷ []

abbrev keep_case : Text → Text
keep_case s = s

candidates-resolve : resolve keep_case (codes "bot") candidates [] ≡ (
  Command.ping ∷ Command.ready ∷ [],
  self_request_ignored (record { from = 0; to = 1 })
      ∷ conflicting_status (codes "ready") (codes "blocked" ∷ [])
      ∷ duplicate_command (codes "ping") 2
      ∷ [],
)
unfolding resolve take_while is_whitespace
candidates-resolve = refl

resolve-Distinct_example :
    Distinct (resolve keep_case (codes "bot") candidates []).0
    × (statuses (resolve keep_case (codes "bot") candidates []).0 ≤ 1)
resolve-Distinct_example = resolve-Distinct keep_case (codes "bot") candidates []

resolve_complete_example :
    (contains_command (resolve keep_case (codes "bot") candidates []).0 Command.blocked ≡ true)
    ⊎ ((is_status Command.blocked ≡ true)
        × ((d : ParsedCommand) × ((Member d candidates
                × ((is_status d.command ≡ true) × (2 ≤ d.span.from)))
              × (contains_command (resolve keep_case (codes "bot") candidates []).0 d.command
                  ≡ true))))
unfolding is_self_request
resolve_complete_example =
    resolve_complete keep_case (codes "bot") candidates [] (candidate Command.blocked 2)
      (there (there (there (there (here refl))))) refl

abbrev NoApproval : Command → Type 0
NoApproval (Command.approve _) = ⊥
NoApproval _ = Unit

resolve-All_example :
    All
      (λ c.
        NoApproval c
        × (is_self_request keep_case (normalize_login keep_case (codes "bot")) c ≡ false))
      (resolve keep_case (codes "bot") candidates []).0
resolve-All_example =
    resolve-All keep_case (codes "bot") NoApproval candidates [] (tt, (tt, (tt, (tt, (tt, tt)))))
