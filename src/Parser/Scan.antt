-- ===== src/Parser/Scan.antt =====
-- What the permissive scan (`program` of src/commands/parse.rs) emits.
use xero_bot.Parser.Args.{is_empty}
use xero_bot.Parser.TailAdds.{verb_tail-Extends}
use xero_bot.Parser.Shortcuts.{short_ready-Extends, bare_review-Extends}
use xero_bot.Text.{Text}
use xero_bot.Parser.Tail.{verb_tail}
use xero_bot.Parser.Adds.{Shortcut, Governed, IsShortcut}
use xero_bot.Parser.Moves.{Moves, Moves-trans, Moves-advance, Moves-incomplete, Moves-refl}
use xero_bot.Lexer.{Tok, Token, bot, review_req, semi, newline}
use xero_bot.Prelude.{
  Option, ℕ, List, ◌≡◌, none, false, Bool, if_cases, All, length, ◌==◌, ◌≤◌, ◌&&◌, some, ◌||◌, refl,
  suc, ◌+◌, ◌∷◌, ◌∙◌, not, [], sym, ap, ◌++◌, take, zero, subst, take-append, append-nil, arith,
}
use xero_bot.Parser.Extends.{
  Evidence, Extends, Extends-weaken, Extends-refl, Moves→Extends, Extends-trans,
}
use xero_bot.Parser.Program.{
  mention_rounds, other_entry, mention_command, approval_entry, semicolon, bare_approval, rounds,
  must_advance, program, entry, is_semi_next,
}
use xero_bot.Parser.State.{
  Span, Parser, ParsedCommand, new, symbol, span, segment_start, advance, peek, addressed_after,
  incomplete, at_boundary,
}

-- Without a governing mention, a candidate is a shortcut written as a symbol.
abbrev pub NeedsNoMention : ParsedCommand → Type 0
NeedsNoMention c = c.mention_span ≡ none → (c.source ≡ symbol) × IsShortcut c.command

abbrev pub Loose : Evidence
Loose m c = NeedsNoMention c

Shortcut→Loose : (m : Option Span) (c : ParsedCommand) → Shortcut m c → Loose m c
Shortcut→Loose m c h e = (h.1, h.2)

-- An entry moves on, and keeps the mode, whatever it adds.
pub record Goes (p q : Parser) : Type 0 where
  pub strict : q.strict ≡ p.strict
  pub text : q.text ≡ p.text
  pub fewer : length q.rest ≤ length p.rest
  pub same : length q.past + length q.rest ≡ length p.past + length p.rest

pub Extends→Goes : {P : Evidence} {p q : Parser} → Extends P p q → Goes p q
Extends→Goes h = record { strict = h.strict; text = h.text; fewer = h.fewer; same = h.same }

pub mention_rounds-Extends :
    (fuel : ℕ) (addressed : Bool) (p : Parser)
    → Extends Governed p (mention_rounds fuel addressed p)
unfolding mention_rounds
mention_rounds-Extends zero addressed p = Extends-refl p
mention_rounds-Extends (suc fuel) addressed p =
    let q = verb_tail addressed p in
    let e = verb_tail-Extends addressed p in
    let a : Extends Governed p (advance q) = Extends-trans e (Moves→Extends (Moves-advance q)) in
    if_cases (Extends Governed p) (is_semi_next q) _ q
      (λ _.
        if_cases (Extends Governed p) (at_boundary (advance q)) (advance q) _ (λ _. a)
          (λ _. Extends-trans a (mention_rounds-Extends fuel addressed (advance q))))
      (λ _. e)

-- a mention's candidates carry its span
governed_by :
    (s : Span) (added : List ParsedCommand)
    → All (Governed (some s)) added
    → All NeedsNoMention added
governed_by s [] h = tt
governed_by s (c ∷ cs) h = (λ e. cc (h.0.0, e), governed_by s cs h.1)

pub mention_command-Extends : (p : Parser) → p.mention ≡ none → Extends Loose p (mention_command p)
unfolding mention_command
mention_command-Extends p n =
    let s = span p in
    let p0 : Parser = record p { mention = some s } in
    let p1 = advance p0 in
    let m = Moves-advance p0 in
    let h = mention_rounds-Extends (length p.rest + 1) (addressed_after p.past) p1 in
    record {
      strict = h.strict ∙ m.strict;
      mention = sym n;
      text = h.text ∙ m.text;
      added = h.added;
      appended = h.appended ∙ ap (λ l. l ++ h.added) m.commands;
      each =
          governed_by s h.added
            (subst (λ (k : Option Span). All (Governed k) h.added) m.mention h.each);
      fewer = omega (arith, h.fewer, m.fewer);
      same = h.same ∙ m.same;
    }

bare_approval-Extends : (p : Parser) → p.strict ≡ false → Extends Loose p (bare_approval p)
unfolding bare_approval
bare_approval-Extends p s =
    let q = verb_tail false p in
    let h = verb_tail-Extends false p in
    let kept : Extends Loose p (record q { commands = take (length p.commands) q.commands }) =
      record {
        strict = h.strict;
        mention = h.mention;
        text = h.text;
        added = [];
        appended =
            ap (take (length p.commands)) h.appended
            ∙ (take-append p.commands h.added ∙ sym (append-nil p.commands));
        each = tt;
        fewer = h.fewer;
        same = h.same;
      } in
    if_cases (Extends Loose p) q.strict _ _ (λ e. cc (e, h.strict, s)) (λ _. kept)

other_entry-Extends : (p : Parser) → p.strict ≡ false → Extends Loose p (other_entry p)
unfolding other_entry
other_entry-Extends p s =
    if_cases (Extends Loose p) p.strict _ _ (λ e. cc (e, s)) (λ _. Moves→Extends (Moves-advance p))

approval_entry-Extends : (p : Parser) → p.strict ≡ false → Extends Loose p (approval_entry p)
unfolding approval_entry
approval_entry-Extends p s =
    if_cases (Extends Loose p) (p.strict || segment_start p) _ _ (λ _. bare_approval-Extends p s)
      (λ _. other_entry-Extends p s)

shortcut_Loose : {p q : Parser} → Extends Shortcut p q → Extends Loose p q
shortcut_Loose {p} h = Extends-weaken Shortcut Loose (Shortcut→Loose p.mention) h

pub semicolon-Moves : (p : Parser) → Moves p (semicolon p)
unfolding semicolon
semicolon-Moves p =
    Moves-trans
      (if_cases (Moves p) (p.strict && segment_start p) (incomplete p) p (λ _. Moves-incomplete p)
        (λ _. Moves-refl p))
      (Moves-advance _)

-- In the permissive scan, what needs a mention is emitted only under one.
entry-Extends :
    (t : Option Tok) (p : Parser)
    → p.strict ≡ false
    → p.mention ≡ none
    → Extends Loose p (entry t p)
unfolding entry
entry-Extends (some bot) p s n = mention_command-Extends p n
entry-Extends (some Tok.short_ready) p s n = shortcut_Loose (short_ready-Extends p)
entry-Extends (some review_req) p s n =
    if_cases (Extends Loose p) (not p.strict) _ _ (λ _. shortcut_Loose (bare_review-Extends p))
      (λ _. other_entry-Extends p s)
entry-Extends (some semi) p s n = Moves→Extends (semicolon-Moves p)
entry-Extends (some newline) p s n = Moves→Extends (Moves-advance p)
entry-Extends (some Tok.approve) p s n = approval_entry-Extends p s
entry-Extends (some Tok.approve_as) p s n = approval_entry-Extends p s
entry-Extends (some Tok.reject) p s n = approval_entry-Extends p s
entry-Extends _ p s n = other_entry-Extends p s

must_advance-Moves : (before : ℕ) (p : Parser) → Moves p (must_advance before p)
unfolding must_advance
must_advance-Moves before p =
    if_cases (Moves p) (length p.past == before) (advance (incomplete p)) p
      (λ _. Moves-trans (Moves-incomplete p) (Moves-advance (incomplete p))) (λ _. Moves-refl p)

rounds-Extends :
    (fuel : ℕ) (p : Parser) → p.strict ≡ false → p.mention ≡ none → Extends Loose p (rounds fuel p)
unfolding rounds
rounds-Extends zero p s n = Extends-refl p
rounds-Extends (suc fuel) p s n =
    let e : Extends Loose p (must_advance (length p.past) (entry (peek p) p)) =
      Extends-trans (entry-Extends (peek p) p s n) (Moves→Extends (must_advance-Moves _ _)) in
    if_cases (Extends Loose p) (is_empty p.rest) p _ (λ _. Extends-refl p)
      (λ _. Extends-trans e (rounds-Extends fuel _ (e.strict ∙ s) (e.mention ∙ n)))

-- Every candidate of the permissive scan that no bot mention governs is a ready, review-request or
-- cc shortcut written as a symbol: no approval, rejection or other command runs from prose unmentioned.
pub scan-NeedsNoMention :
    (toks : List Token) (text : Text) → All NeedsNoMention (program (new toks text false)).commands
unfolding program new
scan-NeedsNoMention toks text =
    let h = rounds-Extends (length toks) (new toks text false) refl refl in rw h.appended h.each
