-- ===== src/Resolve/Resolved.antt =====
-- What the whole of `resolve` (src/commands/resolve.rs) promises.
use xero_bot.Prelude.{List, All, ◌∷◌, [], if_cases, ◌≤◌, ◌≡◌, leb, false, arith}
use xero_bot.Command.{Command}
use xero_bot.Resolve.Laws.{
  statuses, Distinct, collapse-All, collapse-Distinct, status_pass-All, collapse-statuses,
  status_pass_single,
}
use xero_bot.Parser.State.{ParsedCommand, Diagnostic}
use xero_bot.Text.{Text}
use xero_bot.Resolve.{
  insert_by_start, sort_by_start, retain, resolve, ParsedCommand, Command, List, is_self_request,
  normalize_login, status_pass,
}

pub insert-All :
    (P : ParsedCommand → Type 0) (c : ParsedCommand) (cs : List ParsedCommand)
    → P c
    → All P cs
    → All P (insert_by_start c cs)
unfolding insert_by_start
insert-All P c [] h k = (h, tt)
insert-All P c (d ∷ ds) h k =
    if_cases (All P) (leb c.span.from d.span.from) (c ∷ d ∷ ds) (d ∷ insert_by_start c ds)
      (λ _. (h, k)) (λ _. (k.0, insert-All P c ds h k.1))

pub sort-All :
    (P : ParsedCommand → Type 0) (cs : List ParsedCommand) → All P cs → All P (sort_by_start cs)
unfolding sort_by_start
sort-All P [] h = tt
sort-All P (c ∷ cs) h = insert-All P c (sort_by_start cs) h.0 (sort-All P cs h.1)

module _ (to_lowercase : Text → Text) where
  pub retain-All :
      (me : Text) (P : ParsedCommand → Type 0) (cs : List ParsedCommand) (diags : List Diagnostic)
      → All P cs
      → All
          (λ c. P c × (is_self_request to_lowercase me c.command ≡ false))
          (retain to_lowercase me cs diags).0
  unfolding retain
  retain-All me P [] diags h = tt
  retain-All me P (c ∷ cs) diags h =
      let self = is_self_request to_lowercase me c.command in
      let ih = λ (d : List Diagnostic). retain-All me P cs d h.1 in
      if_cases (All (λ d. P d × (is_self_request to_lowercase me d.command ≡ false))) self _ _
        (λ _. ih _) (λ e. ((h.0, e), ih _))

  -- Whatever holds of the commands of the candidates holds of the commands that are left, and none
  -- of these asks the bot itself.
  pub resolve-All :
      (bot_name : Text) (P : Command → Type 0) (parsed : List ParsedCommand)
      (diags : List Diagnostic)
      → All (λ c. P c.command) parsed
      → All
          (λ c.
            P c × (is_self_request to_lowercase (normalize_login to_lowercase bot_name) c ≡ false))
          (resolve to_lowercase bot_name parsed diags).0
  unfolding resolve
  resolve-All bot_name P parsed diags h =
      collapse-All _ _ [] [] tt (status_pass-All _ _ _ (retain-All _ _ _ _ (sort-All _ parsed h)))

  -- Whatever the candidates, no command is left twice, and at most one status command is left.
  pub resolve-Distinct :
      (bot_name : Text) (parsed : List ParsedCommand) (diags : List Diagnostic)
      → Distinct (resolve to_lowercase bot_name parsed diags).0
        × (statuses (resolve to_lowercase bot_name parsed diags).0 ≤ 1)
  unfolding resolve statuses
  resolve-Distinct bot_name parsed diags =
      let kept =
        retain to_lowercase (normalize_login to_lowercase bot_name) (sort_by_start parsed) diags in
      let single = status_pass kept.0 kept.1 in
      (
        collapse-Distinct single.0 [] [] tt,
        omega (arith, collapse-statuses single.0 [] [], status_pass_single kept.0 kept.1),
      )
