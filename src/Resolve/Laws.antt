-- ===== src/Resolve/Laws.antt =====
-- What `resolve` (src/commands/resolve.rs) leaves of the candidates.
use xero_bot.Parser.State.{ParsedCommand, Diagnostic}
use xero_bot.Text.{Text}
use xero_bot.Command.{Command}
use xero_bot.Prelude.{
  List, ◌++◌, ◌≡◌, ℕ, ◌∷◌, All, if◌then◌else◌, ◌+◌, false, ◌≤◌, [], if_cases, arith, length,
  All-append, ◌&&◌, refl, ltb,
}
use xero_bot.Resolve.{
  collapse, command_eq, Command, status_commands, contains_command, Text, ParsedCommand, is_status,
  add_new, status_pass, drop_earlier, has_status, note_dupe,
}

-- No command equals an earlier one.
abbrev pub Distinct : List Command → Type 0
Distinct [] = Unit
Distinct (d ∷ ds) = All (λ c. command_eq d c ≡ false) ds × Distinct ds

Distinct-snoc :
    (out : List Command) (c : Command)
    → Distinct out
    → contains_command out c ≡ false
    → Distinct (out ++ c ∷ [])
Distinct-snoc [] c h e = (tt, tt)
Distinct-snoc (d ∷ ds) c h e =
    (All-append _ ds (c ∷ []) h.0 (ground arith, tt), Distinct-snoc ds c h.1 (ground arith))

add_new-Distinct : (out : List Command) (c : Command) → Distinct out → Distinct (add_new out c)
unfolding add_new
add_new-Distinct out c h =
    if_cases Distinct (contains_command out c) out (out ++ c ∷ []) (λ _. h)
      (λ e. Distinct-snoc out c h e)

pub collapse-Distinct :
    (cs : List ParsedCommand) (out : List Command) (dupes : List (Text × ℕ))
    → Distinct out
    → Distinct (collapse out dupes cs).0
unfolding collapse
collapse-Distinct [] out dupes h = h
collapse-Distinct (c ∷ cs) out dupes h =
    collapse-Distinct cs (add_new out c.command) _ (add_new-Distinct out c.command h)

add_new-All :
    (P : Command → Type 0) (out : List Command) (c : Command)
    → All P out
    → P c
    → All P (add_new out c)
unfolding add_new
add_new-All P out c h k =
    if_cases (All P) (contains_command out c) out (out ++ c ∷ []) (λ _. h)
      (λ _. All-append P out (c ∷ []) h (k, tt))

-- What holds of the commands out and of the candidates holds of the result.
pub collapse-All :
    (P : Command → Type 0) (cs : List ParsedCommand) (out : List Command) (dupes : List (Text × ℕ))
    → All P out
    → All (λ c. P c.command) cs
    → All P (collapse out dupes cs).0
unfolding collapse
collapse-All P [] out dupes h k = h
collapse-All P (c ∷ cs) out dupes h k =
    collapse-All P cs (add_new out c.command) _ (add_new-All P out c.command h k.0) k.1

-- how many status commands there are
unfoldable pub statuses : List Command → ℕ
statuses [] = 0
statuses (c ∷ cs) = (if is_status c then 1 else 0) + statuses cs

statuses-append : (s t : List Command) → statuses (s ++ t) ≡ statuses s + statuses t
unfolding statuses
statuses-append [] t = omega arith
statuses-append (c ∷ s) t = omega (arith, statuses-append s t)

add_new-statuses :
    (out : List Command) (c : Command)
    → statuses (add_new out c) ≤ statuses out + (if is_status c then 1 else 0)
unfolding add_new statuses
add_new-statuses out c =
    if_cases (λ o. statuses o ≤ statuses out + (if is_status c then 1 else 0))
      (contains_command out c) out (out ++ c ∷ []) (λ _. omega arith)
      (λ _. omega (arith, statuses-append out (c ∷ [])))

pub collapse-statuses :
    (cs : List ParsedCommand) (out : List Command) (dupes : List (Text × ℕ))
    → statuses (collapse out dupes cs).0 ≤ statuses out + length (status_commands cs)
unfolding collapse status_commands
collapse-statuses [] out dupes = omega arith
collapse-statuses (c ∷ cs) out dupes =
    let ih = collapse-statuses cs (add_new out c.command) (note_dupe out c.command dupes) in
    ground (arith, add_new-statuses out c.command)

no_status :
    (cs : List ParsedCommand)
    → has_status cs ≡ false
    → length (status_commands (drop_earlier cs)) ≡ 0
unfolding status_commands drop_earlier
no_status [] h = refl
no_status (c ∷ cs) h = ground (arith, no_status cs)

drop_earlier_single : (cs : List ParsedCommand) → length (status_commands (drop_earlier cs)) ≤ 1
unfolding status_commands drop_earlier
drop_earlier_single [] = omega arith
drop_earlier_single (c ∷ cs) = ground (arith, no_status cs, drop_earlier_single cs)

pub status_pass_single :
    (cs : List ParsedCommand) (diags : List Diagnostic)
    → length (status_commands (status_pass cs diags).0) ≤ 1
unfolding status_pass
status_pass_single cs diags =
    if_cases (λ (r : List ParsedCommand × List Diagnostic). length (status_commands r.0) ≤ 1)
      (ltb 1 (length (status_commands cs))) _ _ (λ _. drop_earlier_single cs) (λ e. ground arith)

drop_earlier-All :
    (P : ParsedCommand → Type 0) (cs : List ParsedCommand) → All P cs → All P (drop_earlier cs)
unfolding drop_earlier
drop_earlier-All P [] h = tt
drop_earlier-All P (c ∷ cs) h =
    if_cases (All P) (is_status c.command && has_status cs) (drop_earlier cs) (c ∷ drop_earlier cs)
      (λ _. drop_earlier-All P cs h.1) (λ _. (h.0, drop_earlier-All P cs h.1))

pub status_pass-All :
    (P : ParsedCommand → Type 0) (cs : List ParsedCommand) (diags : List Diagnostic)
    → All P cs
    → All P (status_pass cs diags).0
unfolding status_pass
status_pass-All P cs diags h =
    if_cases (λ (r : List ParsedCommand × List Diagnostic). All P r.0)
      (ltb 1 (length (status_commands cs))) _ _ (λ _. drop_earlier-All P cs h) (λ _. h)
