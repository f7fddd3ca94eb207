-- ===== src/Parser/Progress.antt =====
-- `program` of src/commands/parse.rs reads every token, in both modes.
use xero_bot.Parser.Tail.{verb_tail}
use xero_bot.Parser.TailAdds.{verb_tail-Extends}
use xero_bot.Parser.Shortcuts.{short_ready-Extends, bare_review-Extends}
use xero_bot.Text.{Text}
use xero_bot.Parser.Args.{is_empty}
use xero_bot.Parser.Scan.{Goes, Extends→Goes, mention_rounds-Extends, semicolon-Moves}
use xero_bot.Lexer.{Token, Tok, bot, review_req, semi, newline}
use xero_bot.Parser.Moves.{Moves, Moves-advance}
use xero_bot.Parser.State.{
  advance, Parser, moved, new, incomplete, span, segment_start, peek, addressed_after,
}
use xero_bot.Parser.Program.{
  entry, program, approval_entry, mention_command, other_entry, must_advance, bare_approval, rounds,
}
use xero_bot.Prelude.{
  List, ℕ, ◌<◌, Option, if_cases, ◌≡◌, some, length, ◌||◌, refl, ◌≤◌, true, false, ◌==◌, ◌∷◌, Bool,
  not, [], arith, ==_iff, suc, ◌≢◌, ◌+◌, zero, ◌∙◌,
}

mention_command-Goes : (p : Parser) → Goes p (mention_command p)
unfolding mention_command
mention_command-Goes p =
    let p0 : Parser = record p { mention = some (span p) } in
    let m = Moves-advance p0 in
    let h = mention_rounds-Extends (length p.rest + 1) (addressed_after p.past) (advance p0) in
    record {
      strict = h.strict ∙ m.strict;
      text = h.text ∙ m.text;
      fewer = omega (arith, h.fewer, m.fewer);
      same = h.same ∙ m.same;
    }

bare_approval-Goes : (p : Parser) → Goes p (bare_approval p)
unfolding bare_approval
bare_approval-Goes p =
    let h = Extends→Goes (verb_tail-Extends false p) in
    if_cases (Goes p) (verb_tail false p).strict _ _ (λ _. h)
      (λ _. record { strict = h.strict; text = h.text; fewer = h.fewer; same = h.same })

Moves→Goes : {p q : Parser} → Moves p q → Goes p q
Moves→Goes h = record { strict = h.strict; text = h.text; fewer = h.fewer; same = h.same }

other_entry-Goes : (p : Parser) → Goes p (other_entry p)
unfolding other_entry
other_entry-Goes p =
    if_cases (Goes p) p.strict _ _ (λ _. Extends→Goes (verb_tail-Extends false p))
      (λ _. Moves→Goes (Moves-advance p))

approval_entry-Goes : (p : Parser) → Goes p (approval_entry p)
unfolding approval_entry
approval_entry-Goes p =
    if_cases (Goes p) (p.strict || segment_start p) _ _ (λ _. bare_approval-Goes p)
      (λ _. other_entry-Goes p)

entry-Goes : (t : Option Tok) (p : Parser) → Goes p (entry t p)
unfolding entry
entry-Goes (some bot) p = mention_command-Goes p
entry-Goes (some Tok.short_ready) p = Extends→Goes (short_ready-Extends p)
entry-Goes (some review_req) p =
    if_cases (Goes p) (not p.strict) _ _ (λ _. Extends→Goes (bare_review-Extends p))
      (λ _. other_entry-Goes p)
entry-Goes (some semi) p = Moves→Goes (semicolon-Moves p)
entry-Goes (some newline) p = Moves→Goes (Moves-advance p)
entry-Goes (some Tok.approve) p = approval_entry-Goes p
entry-Goes (some Tok.approve_as) p = approval_entry-Goes p
entry-Goes (some Tok.reject) p = approval_entry-Goes p
entry-Goes _ p = other_entry-Goes p

moved-shrinks :
    (p : Parser) (us : List Token)
    → p.rest ≡ us
    → 0 < length us
    → length (moved p us).rest < length us
moved-shrinks p [] e h = absurd (omega arith)
moved-shrinks p (u ∷ us) e h = omega arith

pub advance-shrinks : (p : Parser) → 0 < length p.rest → length (advance p).rest < length p.rest
unfolding advance
advance-shrinks p h = moved-shrinks p p.rest refl h

-- A round takes at least a token.
must_advance-shrinks :
    (p q : Parser)
    → Goes p q
    → 0 < length p.rest
    → length (must_advance (length p.past) q).rest < length p.rest
unfolding must_advance incomplete
must_advance-shrinks p q g h =
    if_cases (λ (r : Parser). length r.rest < length p.rest) (length q.past == length p.past) _ _
      (λ e.
        let same = (==_iff _ _).0 e in
        let r : Parser = record q { complete = false } in
        omega (arith, g.same, advance-shrinks r (omega (arith, g.same))))
      (λ e.
        let other : length q.past ≢ length p.past = λ k. cc (e, (==_iff _ _).1 k) in
        omega (arith, g.same, g.fewer))

length_empty : (us : List Token) → is_empty us ≡ true → length us ≡ 0
length_empty [] h = refl
length_empty (u ∷ us) h = cc

length_nonempty : (us : List Token) → is_empty us ≡ false → 0 < length us
length_nonempty [] h = cc
length_nonempty (u ∷ us) h = omega arith

rounds_end : (fuel : ℕ) (p : Parser) → length p.rest ≤ fuel → length (rounds fuel p).rest ≡ 0
unfolding rounds
rounds_end zero p h = omega arith
rounds_end (suc fuel) p h =
    if_cases (λ (r : Parser). length r.rest ≡ 0) (is_empty p.rest) p _ (λ e. length_empty p.rest e)
      (λ e. rounds_end fuel _ (
        omega (
          arith,
          must_advance-shrinks p (entry (peek p) p) (entry-Goes (peek p) p)
              (length_nonempty p.rest e),
        )))

-- In both modes the parser reads every token: its fuel, the number of tokens, is enough.
pub program_reads_all :
    (toks : List Token) (text : Text) (strict : Bool)
    → length (program (new toks text strict)).rest ≡ 0
unfolding program new
program_reads_all toks text strict = rounds_end (length toks) (new toks text strict) (omega arith)
