-- ===== src/Parser/Governed.antt =====
-- The candidates of `verb_tail` (src/commands/parse.rs) are governed by the mention in force.
use xero_bot.Parser.Moves.{
  Moves-trans, Moves, Moves-refl, Moves-user_arg, Moves-skip_tail, Moves-end_arguments,
  Moves-missing, Moves-advance, Moves-diagnose, Moves-extra,
}
use xero_bot.Lexer.{Tok, plus, is_valid_label, minus}
use xero_bot.Text.{Text, codes}
use xero_bot.Parser.Adds.{Sourced, Shortcut, Governed, Shortcut→Governed, emit_if, Moves-emit}
use xero_bot.Parser.Extends.{Extends, Moves→Extends, Extends-weaken, Extends-trans}
use xero_bot.Command.{Command}
use xero_bot.Prelude.{
  ℕ, Bool, Option, true, some, suc, none, length, if_cases, if◌then◌else◌, ◌+◌, not, ◌&&◌, zero,
  ◌||◌,
}
use xero_bot.Parser.State.{
  Parser, SourceForm, symbol, advance, peek, emit, at_boundary, labels_expected, missing,
}
use xero_bot.Parser.Verbs.{
  approve_end, approve_target, approve_args, is_approve_as, is_as, approve_from, rollup_of,
}
use xero_bot.Parser.Args.{
  single_user, label_round, label_rounds, label_args, label_end, bad_label, Labels, user_arg,
  emit_user, is_some, label_emit, is_empty,
}

pub Shortcut-Governed : {p q : Parser} → Extends Shortcut p q → Extends Governed p q
Shortcut-Governed {p} h = Extends-weaken Shortcut Governed (Shortcut→Governed p.mention) h

pub symbolic_Sourced : (p : Parser) → Sourced p symbol
symbolic_Sourced p h = cc

emit_user-Extends :
    {p r : Parser} (verb : Text) (start : ℕ) (source : SourceForm) (u : Option Text) (valid : Bool)
    → Moves p r
    → Sourced p source
    → Extends Governed p (emit_user verb start source u valid r)
unfolding emit_user
emit_user-Extends verb start source (some name) true m h = Moves-emit _ start source m h
emit_user-Extends verb start source _ _ m h = Moves→Extends m

pub single_user-Extends :
    (verb : Text) (start : ℕ) (source : SourceForm) (p : Parser)
    → Sourced p source
    → Extends Governed p (single_user verb start source p)
unfolding single_user
single_user-Extends verb start source p h =
    emit_user-Extends verb start source _ _
      (Moves-trans (Moves-user_arg verb p) (Moves-end_arguments verb (user_arg verb p).1)) h

label_round-Moves : (t : Option Tok) (l : Labels) (p : Parser) → Moves p (label_round t l p).1
unfolding label_round bad_label
label_round-Moves (some (plus name)) l p =
    if_cases (λ (r : Labels × Parser). Moves p r.1) (not (is_valid_label name)) _ _
      (λ _. Moves-trans (Moves-diagnose _ p) (Moves-advance _)) (λ _. Moves-advance p)
label_round-Moves (some (minus name)) l p =
    if_cases (λ (r : Labels × Parser). Moves p r.1) (not (is_valid_label name)) _ _
      (λ _. Moves-trans (Moves-diagnose _ p) (Moves-advance _)) (λ _. Moves-advance p)
label_round-Moves _ l p = Moves-extra (codes "label") p

label_rounds-Moves : (fuel : ℕ) (l : Labels) (p : Parser) → Moves p (label_rounds fuel l p).1
unfolding label_rounds
label_rounds-Moves zero l p = Moves-refl p
label_rounds-Moves (suc fuel) l p =
    if_cases (λ (r : Labels × Parser). Moves p r.1) (at_boundary p) _ _ (λ _. Moves-refl p)
      (λ _. Moves-trans (label_round-Moves (peek p) l p) (label_rounds-Moves fuel _ _))

pub complete-Extends :
    {p q : Parser} (b : Bool)
    → Extends Governed p q
    → Extends Governed p (record q { complete = b })
complete-Extends b h = record {
  strict = h.strict;
  mention = h.mention;
  text = h.text;
  added = h.added;
  appended = h.appended;
  each = h.each;
  fewer = h.fewer;
  same = h.same;
}

label_end-Extends :
    {p q : Parser} (start : ℕ) (source : SourceForm) (l : Labels)
    → Moves p q
    → Sourced p source
    → Extends Governed p (label_end start source l q)
unfolding label_end label_emit
label_end-Extends {p} {q} start source l m h = complete-Extends _ (
    if_cases (Extends Governed p) (is_empty l.add && is_empty l.remove)
      (missing (codes "label") labels_expected q)
      (if l.valid then emit (Command.label l.add l.remove) start source q else q)
      (λ _. Moves→Extends (Moves-trans m (Moves-missing (codes "label") labels_expected q)))
      (λ _. emit_if l.valid _ start source m h))

pub label_args-Extends :
    (start : ℕ) (source : SourceForm) (p : Parser)
    → Sourced p source
    → Extends Governed p (label_args start source p)
unfolding label_args
label_args-Extends start source p h =
    label_end-Extends start source _ (label_rounds-Moves (length p.rest + 1) _ p) h

approve_end-Extends :
    (verb : Text) (start : ℕ) (target : Option Text) (p : Parser)
    → Extends Governed p (approve_end verb start target p)
unfolding approve_end
approve_end-Extends verb start target p =
    emit_if _ _ start symbol
      (Moves-trans
        (if_cases (Moves p) (is_some (rollup_of (peek p))) _ _ (λ _. Moves-advance p)
          (λ _. Moves-refl p))
        (Moves-end_arguments verb _))
      (symbolic_Sourced p)

approve_target-Extends :
    (verb : Text) (start : ℕ) (r : Option Text × Parser)
    → Extends Governed r.1 (approve_target verb start r)
unfolding approve_target
approve_target-Extends verb start (none, p) = Moves→Extends (Moves-skip_tail p)
approve_target-Extends verb start (some u, p) = approve_end-Extends verb start (some u) p

approve_from-Extends :
    (verb : Text) (start : ℕ) (wanted : Bool) (p : Parser)
    → Extends Governed p (approve_from verb start wanted p)
unfolding approve_from
approve_from-Extends verb start wanted p =
    if_cases (Extends Governed p)
      (wanted || not (at_boundary p) && not (is_some (rollup_of (peek p)))) _ _
      (λ _.
        Extends-trans (Moves→Extends (Moves-user_arg verb p))
          (approve_target-Extends verb start (user_arg verb p)))
      (λ _. approve_end-Extends verb start none p)

pub approve_args-Extends : (p : Parser) → Extends Governed p (approve_args p)
unfolding approve_args
approve_args-Extends p =
    let q = advance p in
    let required = is_approve_as (peek p) in
    Extends-trans
      (Moves→Extends (
        if_cases (Moves p) (is_as (peek q) && not required) _ _
          (λ _. Moves-trans (Moves-advance p) (Moves-advance q)) (λ _. Moves-advance p)))
      (approve_from-Extends _ _ _ _)
