-- ===== src/Parser/Shortcuts.antt =====
-- The candidates of `?r` and `r?` (src/commands/parse.rs): shortcuts, under the mention in force.
use xero_bot.Text.{text_eq, codes}
use xero_bot.Parser.Args.{Users}
use xero_bot.Lexer.{Tok, word, user, review_req}
use xero_bot.Parser.Adds.{Shortcut, IsShortcut, emit-Extends, user_list-Moves}
use xero_bot.Parser.Moves.{
  Moves, Moves-refl, Moves-skip_filler, Moves-advance, Moves-trans, Moves-incomplete,
}
use xero_bot.Prelude.{
  List, Option, ℕ, if_cases, length, some, All, ◌++◌, ◌∷◌, ◌+◌, [], none, ap, ◌≡◌, ◌∙◌, refl, ◌&&◌,
  not, suc, zero,
}
use xero_bot.Parser.Extends.{Extends, Extends-trans, Moves→Extends, Extends-refl}
use xero_bot.Command.{Command}
use xero_bot.Parser.State.{
  Parser, ParsedCommand, Span, span, emit, symbol, advance, last_end, peek, at_boundary,
}
use xero_bot.Parser.Verbs.{
  symbolic_rounds, ready_end, ready_reviewer, bare_review_request, short_ready_command, ready_cc,
  scan_symbolic_tail, compound_from, emit_cc, symbolic_round, request_user, skip_loose,
}

pub skip_loose-Moves : (p : Parser) → Moves p (skip_loose p)
unfolding skip_loose
skip_loose-Moves p = if_cases (Moves p) p.strict _ _ (λ _. Moves-refl p) (λ _. Moves-skip_filler p)

-- a shortcut's emit after steps that only move
shortcut-emit :
    {p q : Parser} (c : Command) (start : ℕ)
    → IsShortcut c
    → Moves p q
    → Extends Shortcut p (emit c start symbol q)
shortcut-emit {p} {q} c start h m =
    Extends-trans (Moves→Extends m) (emit-Extends c start symbol q (refl, refl, h))

pub ready_reviewer-Extends : (t : Option Tok) (p : Parser) → Extends Shortcut p (ready_reviewer t p)
unfolding ready_reviewer
ready_reviewer-Extends (some (user u)) p = shortcut-emit _ _ tt (Moves-advance p)
ready_reviewer-Extends _ p = Extends-refl p

emit_cc-Shortcut :
    (start : ℕ) (p : Parser) (r : Users) → Moves p r.1 → Extends Shortcut p (emit_cc start symbol r)
unfolding emit_cc
emit_cc-Shortcut start p (some users, q) m = shortcut-emit _ start tt m
emit_cc-Shortcut start p (none, q) m = Moves→Extends m

pub ready_cc-Extends : (t : Option Tok) (p : Parser) → Extends Shortcut p (ready_cc t p)
unfolding ready_cc
ready_cc-Extends (some (word w)) p =
    if_cases (Extends Shortcut p) (text_eq w (codes "cc")) _ _
      (λ _. emit_cc-Shortcut _ p _ (Moves-trans (Moves-advance p) (user_list-Moves (advance p))))
      (λ _. Extends-refl p)
ready_cc-Extends _ p = Extends-refl p

compound_from-append :
    (cs added : List ParsedCommand) (s : Span)
    → compound_from (length cs) s (cs ++ added) ≡ cs ++ compound_from 0 s added
unfolding compound_from
compound_from-append [] added s = refl
compound_from-append (c ∷ cs) added s = ap (λ l. c ∷ l) (compound_from-append cs added s)

compound_from-Shortcut :
    (m : Option Span) (s : Span) (added : List ParsedCommand)
    → All (Shortcut m) added
    → All (Shortcut m) (compound_from 0 s added)
unfolding compound_from
compound_from-Shortcut m s [] h = tt
compound_from-Shortcut m s (c ∷ cs) h = (h.0, compound_from-Shortcut m s cs h.1)

ready_end-Extends :
    (start : ℕ) (p q : Parser)
    → Extends Shortcut p q
    → Extends Shortcut p (ready_end (length p.commands) start q)
unfolding ready_end
ready_end-Extends start p q h =
    let s : Span = record { from = start; to = last_end q.past } in
    let r : Parser = record q { commands = compound_from (length p.commands) s q.commands } in
    let e : Extends Shortcut p r = record {
      strict = h.strict;
      mention = h.mention;
      text = h.text;
      added = compound_from 0 s h.added;
      appended =
          ap (compound_from (length p.commands) s) h.appended
          ∙ compound_from-append p.commands h.added s;
      each = compound_from-Shortcut p.mention s h.added h.each;
      fewer = h.fewer;
      same = h.same;
    } in
    if_cases (Extends Shortcut p) (r.strict && not (at_boundary r)) _ _
      (λ _. Extends-trans e (Moves→Extends (Moves-incomplete r))) (λ _. e)

pub short_ready-Extends : (p : Parser) → Extends Shortcut p (short_ready_command p)
unfolding short_ready_command
short_ready-Extends p =
    let start = (span p).from in
    let q = skip_loose (emit Command.ready start symbol (advance p)) in
    let r = skip_loose (ready_reviewer (peek q) q) in
    ready_end-Extends start p (ready_cc (peek r) r) (
      Extends-trans (shortcut-emit Command.ready start tt (Moves-advance p)) (
        Extends-trans (Moves→Extends (skip_loose-Moves _)) (
          Extends-trans (ready_reviewer-Extends (peek q) q)
            (Extends-trans (Moves→Extends (skip_loose-Moves _)) (ready_cc-Extends (peek r) r)))))

pub request_user-Extends :
    (start : ℕ) (t : Option Tok) (p : Parser) → Extends Shortcut p (request_user start t p)
unfolding request_user
request_user-Extends start (some (user u)) p = shortcut-emit _ start tt (Moves-advance p)
request_user-Extends start _ p = Extends-refl p

pub bare_review-Extends : (p : Parser) → Extends Shortcut p (bare_review_request p)
unfolding bare_review_request
bare_review-Extends p =
    Extends-trans (Moves→Extends (Moves-trans (Moves-advance p) (Moves-skip_filler (advance p))))
      (request_user-Extends _ _ _)

symbolic_round-Extends : (t : Option Tok) (p : Parser) → Extends Shortcut p (symbolic_round t p)
unfolding symbolic_round
symbolic_round-Extends (some Tok.short_ready) p = short_ready-Extends p
symbolic_round-Extends (some review_req) p = bare_review-Extends p
symbolic_round-Extends _ p = Moves→Extends (Moves-advance p)

symbolic_rounds-Extends : (fuel : ℕ) (p : Parser) → Extends Shortcut p (symbolic_rounds fuel p)
unfolding symbolic_rounds
symbolic_rounds-Extends zero p = Extends-refl p
symbolic_rounds-Extends (suc fuel) p =
    if_cases (Extends Shortcut p) (at_boundary p) _ _ (λ _. Extends-refl p)
      (λ _. Extends-trans (symbolic_round-Extends (peek p) p) (symbolic_rounds-Extends fuel _))

pub symbolic_tail-Extends : (p : Parser) → Extends Shortcut p (scan_symbolic_tail p)
unfolding scan_symbolic_tail
symbolic_tail-Extends p = symbolic_rounds-Extends (length p.rest + 1) p
