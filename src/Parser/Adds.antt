-- ===== src/Parser/Adds.antt =====
-- The candidates that each step of src/commands/parse.rs adds.
use xero_bot.Parser.Tail.{source_of}
use xero_bot.Parser.Moves.{
  Moves, Moves-refl, Moves-end_arguments, Moves-trans, Moves-skip_tail, Moves-user_arg,
  Moves-advance, Moves-extra,
}
use xero_bot.Text.{Text, codes, text_eq, slice}
use xero_bot.Parser.Extends.{Evidence, Extends, Extends-trans, Moves→Extends}
use xero_bot.Parser.State.{
  emit, Parser, SourceForm, Span, symbol, bare_word, ParsedCommand, emit_end, at_boundary, span,
  advance, peek,
}
use xero_bot.Prelude.{
  Option, List, ℕ, Bool, ◌≡◌, length, none, if◌then◌else◌, ◌∷◌, suc, if_cases, ◌+◌, ◌∙◌, some, [],
  arith, zero, refl, ◌&&◌, not, ◌||◌,
}
use xero_bot.Command.{Command, cc_users}
use xero_bot.Parser.Args.{
  after_user, user_rounds, end_users, user_list, with_user, Users, add_user, is_punct_next,
  names_user, touches,
}

-- A candidate carries the mention in force, and is a bare word only where there is none.
abbrev pub Governed : Evidence
Governed m c = (c.mention_span ≡ m) × (c.source ≡ bare_word → m ≡ none)

-- The commands that the shortcuts `?r` and `r?` stand for.
abbrev pub IsShortcut : Command → Type 0
IsShortcut Command.ready = Unit
IsShortcut (Command.request_review _) = Unit
IsShortcut (cc_users _) = Unit
IsShortcut _ = ⊥

-- A symbolic candidate of a shortcut, with the mention in force.
abbrev pub Shortcut : Evidence
Shortcut m c = (c.mention_span ≡ m) × (c.source ≡ symbol) × IsShortcut c.command

pub Shortcut→Governed : (m : Option Span) (c : ParsedCommand) → Shortcut m c → Governed m c
Shortcut→Governed m c h = (h.0, λ e. cc (h.1, e))

abbrev pub candidate : Command → ℕ → SourceForm → Parser → ParsedCommand
candidate command start source p = record {
  command = command;
  span = record { from = start; to = emit_end p.past p.rest };
  source = source;
  mention_span = p.mention;
  compound_span = none;
}

pub emit-Extends :
    {P : Evidence} (c : Command) (start : ℕ) (source : SourceForm) (p : Parser)
    → P p.mention (candidate c start source p)
    → Extends P p (emit c start source p)
unfolding emit
emit-Extends c start source p h = record {
  strict = refl;
  mention = refl;
  text = refl;
  added = candidate c start source p ∷ [];
  appended = refl;
  each = (h, tt);
  fewer = omega arith;
  same = refl;
}

abbrev pub Sourced : Parser → SourceForm → Type 0
Sourced p source = source ≡ bare_word → p.mention ≡ none

source_of_bare : (m : Option Span) → source_of m ≡ bare_word → m ≡ none
source_of_bare none h = refl
source_of_bare (some s) h = cc

pub Sourced-source_of : (p q : Parser) → q.mention ≡ p.mention → Sourced q (source_of p.mention)
Sourced-source_of p q e h = e ∙ source_of_bare p.mention h

-- `emit` after steps that only move
pub Moves-emit :
    {p q : Parser} (c : Command) (start : ℕ) (source : SourceForm)
    → Moves p q
    → Sourced p source
    → Extends Governed p (emit c start source q)
Moves-emit {p} {q} c start source m h =
    Extends-trans (Moves→Extends m) (emit-Extends c start source q (refl, λ e. m.mention ∙ h e))

-- Where an optional emit closes a command.
pub emit_if :
    {p q : Parser} (b : Bool) (c : Command) (start : ℕ) (source : SourceForm)
    → Moves p q
    → Sourced p source
    → Extends Governed p (if b then emit c start source q else q)
emit_if b c start source m h =
    if_cases (Extends Governed _) b _ _ (λ _. Moves-emit c start source m h) (λ _. Moves→Extends m)

-- The users of a `cc` list are read by moves alone.
abbrev UsersMove : (List Text → Parser → Users) → Type 0
UsersMove again = (users : List Text) (p : Parser) → Moves p (again users p).1

end_users-Moves : (users : List Text) (p : Parser) → Moves p (end_users users p).1
unfolding end_users
end_users-Moves users p = Moves-end_arguments (codes "cc") p

after_user-Moves :
    (again : List Text → Parser → Users) → UsersMove again → UsersMove (after_user again)
unfolding after_user
after_user-Moves again h users p =
    if_cases (λ (r : Users). Moves p r.1) (at_boundary p) _ _ (λ _. Moves-refl p)
      λ _.
        if_cases (λ (r : Users). Moves p r.1)
          (is_punct_next p && text_eq (slice p.text (span p).from (span p).to) (codes ",")) _ _
          (λ _. Moves-trans (Moves-advance p) (
            if_cases (λ (r : Users). Moves (advance p) r.1) (not (names_user (peek (advance p)))) _
              _ (λ _. end_users-Moves users (advance p)) (λ _. h users (advance p))))
          λ _.
            if_cases (λ (r : Users). Moves p r.1) (is_punct_next p) _ _
              (λ _. end_users-Moves users p)
              λ _.
                if_cases (λ (r : Users). Moves p r.1) (not (names_user (peek p)) || touches p) _ _
                  (λ _. Moves-extra (codes "cc") p) (λ _. h users p)

with_user-Moves :
    (again : List Text → Parser → Users) (users : List Text) (p : Parser) (r : Option Text × Parser)
    → UsersMove again
    → Moves p r.1
    → Moves p (with_user again users r).1
unfolding with_user
with_user-Moves again users p (none, q) h m = Moves-trans m (Moves-skip_tail q)
with_user-Moves again users p (some u, q) h m =
    Moves-trans m (after_user-Moves again h (add_user u users) q)

user_rounds-Moves : (fuel : ℕ) → UsersMove (user_rounds fuel)
unfolding user_rounds
user_rounds-Moves zero users p = Moves-refl p
user_rounds-Moves (suc fuel) users p =
    with_user-Moves (user_rounds fuel) users p _ (user_rounds-Moves fuel)
      (Moves-user_arg (codes "cc") p)

pub user_list-Moves : (p : Parser) → Moves p (user_list p).1
unfolding user_list
user_list-Moves p = user_rounds-Moves (length p.rest + 1) [] p
