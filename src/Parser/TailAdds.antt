-- ===== src/Parser/TailAdds.antt =====
-- Every candidate of `verb_tail` (src/commands/parse.rs) is governed by the mention in force.
use xero_bot.Parser.Governed.{
  single_user-Extends, label_args-Extends, symbolic_Sourced, approve_args-Extends,
  Shortcut-Governed,
}
use xero_bot.Parser.Shortcuts.{symbolic_tail-Extends, short_ready-Extends}
use xero_bot.Suggest.{suggest}
use xero_bot.Parser.Args.{Users, user_list, touches, is_some}
use xero_bot.Parser.Adds.{
  Shortcut, Governed, emit_if, Sourced, Moves-emit, Sourced-source_of, user_list-Moves,
}
use xero_bot.Parser.Extends.{Extends, Extends-trans, Moves→Extends}
use xero_bot.Parser.Moves.{
  Moves, Moves-refl, Moves-end_arguments, Moves-advance, Moves-skip_filler, Moves-diagnose,
  Moves-extra, Moves-trans, Moves-incomplete, Moves-skip_tail,
}
use xero_bot.Lexer.{Tok, word, review_req}
use xero_bot.Command.{CommandId, Command, from_name, cc_id}
use xero_bot.Text.{Text, codes}
use xero_bot.Prelude.{
  Option, Bool, ℕ, if_cases, false, some, if◌then◌else◌, ◌&&◌, not, none, refl, ◌||◌,
}
use xero_bot.Parser.State.{
  Parser, SourceForm, incomplete, emit, skip_filler, diagnose, at_boundary, advance, unknown_verb,
  symbol, skip_tail,
}
use xero_bot.Parser.Verbs.{emit_cc, scan_symbolic_tail}
use xero_bot.Parser.Tail.{
  word_verb, nullary_verb, lead_in, queue_verb, list_verb, tail_at, unknown_word, argument_verb,
  verb_tail, nullary_tail, other_verb, reject_args, takes_list, is_queue_verb, source_of,
  queue_command, argument_follows, nullary, last_span, is_bot_next,
}

queue_verb-Extends : (w : Text) (start : ℕ) (p : Parser) → Extends Governed p (queue_verb w start p)
unfolding queue_verb
queue_verb-Extends w start p =
    emit_if _ (queue_command w) start (source_of p.mention) (Moves-end_arguments _ p)
      (Sourced-source_of p p refl)

nullary_tail-Extends : (w : Text) (p : Parser) → Extends Shortcut p (nullary_tail w p)
unfolding nullary_tail
nullary_tail-Extends w p =
    Extends-trans
      (Moves→Extends (
        if_cases (Moves p) (argument_follows p.rest) _ _ (λ _. Moves-diagnose _ p)
          (λ _. Moves-refl p)))
      (symbolic_tail-Extends _)

nullary_verb-Extends :
    (w : Text) (cmd : Command) (start : ℕ) (p : Parser)
    → Extends Governed p (nullary_verb w cmd start p)
unfolding nullary_verb
nullary_verb-Extends w cmd start p =
    let q = emit cmd start (source_of p.mention) p in
    let e =
      Moves-emit cmd start (source_of p.mention) (Moves-refl p) (Sourced-source_of p p refl) in
    if_cases (Extends Governed p)
      (p.strict && (not (at_boundary p) || not (is_some p.mention) && is_bot_next p))
      (skip_tail (incomplete p)) (if q.strict then q else nullary_tail w q)
      (λ _. Moves→Extends (Moves-trans (Moves-incomplete p) (Moves-skip_tail _)))
      (λ _.
        if_cases (Extends Governed p) q.strict q (nullary_tail w q) (λ _. e)
          (λ _. Extends-trans e (Shortcut-Governed (nullary_tail-Extends w q))))

unknown_word-Extends :
    (w : Text) (report : Bool) (p : Parser) → Extends Governed p (unknown_word w report p)
unfolding unknown_word
unknown_word-Extends w report p =
    let q = incomplete p in
    let r = if report then diagnose (unknown_verb w (suggest w) (last_span q.past)) q else q in
    let m : Moves p r =
      if_cases (Moves p) report _ _ (λ _. Moves-trans (Moves-incomplete p) (Moves-diagnose _ q))
        (λ _. Moves-incomplete p) in
    if_cases (Extends Governed p) r.strict (skip_tail r) (scan_symbolic_tail r)
      (λ _. Moves→Extends (Moves-trans m (Moves-skip_tail r)))
      (λ _. Extends-trans (Moves→Extends m) (Shortcut-Governed (symbolic_tail-Extends r)))

emit_cc-Extends :
    {p : Parser} (start : ℕ) (source : SourceForm) (r : Users)
    → Moves p r.1
    → Sourced p source
    → Extends Governed p (emit_cc start source r)
unfolding emit_cc
emit_cc-Extends start source (some users, q) m h = Moves-emit _ start source m h
emit_cc-Extends start source (none, q) m h = Moves→Extends m

argument_verb-Extends :
    (id : Option CommandId) (w : Text) (start : ℕ) (report : Bool) (p : Parser)
    → Extends Governed p (argument_verb id w start report p)
unfolding argument_verb
argument_verb-Extends (some cc_id) w start report p =
    emit_cc-Extends start (source_of p.mention) (user_list p) (user_list-Moves p)
      (Sourced-source_of p p refl)
argument_verb-Extends (some CommandId.assign) w start report p =
    single_user-Extends _ start (source_of p.mention) p (Sourced-source_of p p refl)
argument_verb-Extends (some CommandId.label) w start report p =
    label_args-Extends start (source_of p.mention) p (Sourced-source_of p p refl)
argument_verb-Extends _ w start report p = unknown_word-Extends w report p

list_verb-Extends :
    (id : Option CommandId) (w : Text) (start : ℕ) (report : Bool) (p : Parser)
    → Extends Governed p (list_verb id w start report p)
unfolding list_verb
list_verb-Extends id w start report p =
    if_cases (Extends Governed p) (takes_list id && not (at_boundary p) && touches p) _ _
      (λ _. Moves→Extends (Moves-extra _ p)) (λ _. argument_verb-Extends id w start report p)

other_verb-Extends :
    (cmd : Option Command) (w : Text) (start : ℕ) (report : Bool) (p : Parser)
    → Extends Governed p (other_verb cmd w start report p)
unfolding other_verb
other_verb-Extends (some cmd) w start report p = nullary_verb-Extends w cmd start p
other_verb-Extends none w start report p = list_verb-Extends (from_name w) w start report p

word_verb-Extends :
    (w : Text) (start : ℕ) (report : Bool) (p : Parser)
    → Extends Governed p (word_verb w start report p)
unfolding word_verb
word_verb-Extends w start report p =
    if_cases (Extends Governed p) (is_queue_verb (from_name w)) _ _
      (λ _. queue_verb-Extends w start p) (λ _. other_verb-Extends (nullary w) w start report p)

tail_at-Extends :
    (t : Option Tok) (start : ℕ) (report : Bool) (p : Parser)
    → Extends Governed p (tail_at t start report p)
unfolding tail_at reject_args
tail_at-Extends (some (word w)) start report p =
    Extends-trans (Moves→Extends (Moves-advance p)) (word_verb-Extends w start report (advance p))
tail_at-Extends (some review_req) start report p =
    Extends-trans (Moves→Extends (Moves-advance p))
      (single_user-Extends (codes "r?") start symbol (advance p) (symbolic_Sourced (advance p)))
tail_at-Extends (some Tok.approve) start report p = approve_args-Extends p
tail_at-Extends (some Tok.approve_as) start report p = approve_args-Extends p
tail_at-Extends (some Tok.reject) start report p =
    emit_if _ Command.reject start symbol
      (Moves-trans (Moves-advance p) (Moves-end_arguments _ (advance p))) (symbolic_Sourced p)
tail_at-Extends (some Tok.short_ready) start report p = Shortcut-Governed (short_ready-Extends p)
tail_at-Extends _ start report p = Moves→Extends (Moves-incomplete p)

lead_in-Moves : (p : Parser) → Moves p (lead_in p).0
unfolding lead_in
lead_in-Moves p =
    if_cases (λ (r : Parser × Bool). Moves p r.0) p.strict (p, false) (skip_filler p)
      (λ _. Moves-refl p) (λ _. Moves-skip_filler p)

-- Reading one command moves forward over the tokens, keeps the mode, the text and the mention, and
-- appends candidates that all carry the mention, bare words only if there is none.
pub verb_tail-Extends : (addressed : Bool) (p : Parser) → Extends Governed p (verb_tail addressed p)
unfolding verb_tail
verb_tail-Extends addressed p =
    Extends-trans (Moves→Extends (lead_in-Moves p)) (tail_at-Extends _ _ _ _)
