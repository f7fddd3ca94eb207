-- ===== src/Parser/Moves.antt =====
-- The steps of src/commands/parse.rs that move over tokens and add no candidate.

use xero_bot.Lexer.{Token, Tok, user, raw_user}
use xero_bot.Text.{Text, slice}
use xero_bot.Prelude.{
  List, false, ◌∙◌, ◌≡◌, Option, arith, length, Bool, ◌∷◌, if_cases, ◌||◌, ◌≤◌, ap, some, ◌+◌, [],
  ◌&&◌, refl, all,
}
use xero_bot.Parser.Args.{
  skip_closing, user_arg, end_arguments, user_arg_at, close, is_some, is_punct, ends_sentence,
}
use xero_bot.Parser.State.{
  incomplete, diagnose, extra, Parser, skip_fillers, skip_tail, advance, skip_to_boundary,
  skip_filler, missing, Diagnostic, Expected, peek, moved, is_boundary, at_boundary, is_prose,
  is_filler, user_expected,
}

-- A step that moves and may note something, and adds no candidate.
pub record Moves (p q : Parser) : Type 0 where
  pub strict : q.strict ≡ p.strict
  pub mention : q.mention ≡ p.mention
  pub text : q.text ≡ p.text
  pub commands : q.commands ≡ p.commands
  pub fewer : length q.rest ≤ length p.rest
  pub same : length q.past + length q.rest ≡ length p.past + length p.rest

pub Moves-trans : {p q r : Parser} → Moves p q → Moves q r → Moves p r
Moves-trans h k = record {
  strict = k.strict ∙ h.strict;
  mention = k.mention ∙ h.mention;
  text = k.text ∙ h.text;
  commands = k.commands ∙ h.commands;
  fewer = omega (arith, h.fewer, k.fewer);
  same = k.same ∙ h.same;
}

pub Moves-refl : (p : Parser) → Moves p p
Moves-refl p = record {
  strict = refl;
  mention = refl;
  text = refl;
  commands = refl;
  fewer = omega arith;
  same = refl;
}

-- only the place changes
pub Moves-to :
    (p : Parser) (past rest : List Token)
    → length rest ≤ length p.rest
    → length past + length rest ≡ length p.past + length p.rest
    → Moves p (record p { past = past; rest = rest })
Moves-to p past rest h e = record {
  strict = refl;
  mention = refl;
  text = refl;
  commands = refl;
  fewer = h;
  same = e;
}

Moves-moved : (p : Parser) (us : List Token) → p.rest ≡ us → Moves p (moved p us)
Moves-moved p [] e = Moves-refl p
Moves-moved p (u ∷ us) e =
    Moves-to p (u ∷ p.past) us (omega (arith, ap length e)) (omega (arith, ap length e))

pub Moves-advance : (p : Parser) → Moves p (advance p)
unfolding advance
Moves-advance p = Moves-moved p p.rest refl

pub Moves-diagnose : (d : Diagnostic) (p : Parser) → Moves p (diagnose d p)
unfolding diagnose
Moves-diagnose d p = record {
  strict = refl;
  mention = refl;
  text = refl;
  commands = refl;
  fewer = omega arith;
  same = refl;
}

pub Moves-incomplete : (p : Parser) → Moves p (incomplete p)
unfolding incomplete
Moves-incomplete p = record {
  strict = refl;
  mention = refl;
  text = refl;
  commands = refl;
  fewer = omega arith;
  same = refl;
}

-- A loop that only moves keeps the count of the tokens.
abbrev pub Passes : List Token → List Token → List Token → List Token → Type 0
Passes past rest past' rest' =
    (length rest' ≤ length rest) × (length past' + length rest' ≡ length past + length rest)

pub skip_to_boundary-Passes :
    (past rest : List Token)
    → Passes past rest (skip_to_boundary past rest).0 (skip_to_boundary past rest).1
unfolding skip_to_boundary
skip_to_boundary-Passes past [] = (omega arith, refl)
skip_to_boundary-Passes past (u ∷ us) =
    let ih = skip_to_boundary-Passes (u ∷ past) us in
    if_cases (λ (r : List Token × List Token). Passes past (u ∷ us) r.0 r.1)
      (is_boundary (some u.tok)) _ _ (λ _. (omega arith, refl))
      (λ _. (omega (arith, ih.0), omega (arith, ih.1)))

pub Moves-skip_tail : (p : Parser) → Moves p (skip_tail p)
unfolding skip_tail
Moves-skip_tail p = let h = skip_to_boundary-Passes p.past p.rest in Moves-to p _ _ h.0 h.1

skip_fillers-Passes :
    (past rest : List Token) (seen : Bool)
    → Passes past rest (skip_fillers past rest seen).0 (skip_fillers past rest seen).1
unfolding skip_fillers
skip_fillers-Passes past [] seen = (omega arith, refl)
skip_fillers-Passes past (u ∷ us) seen =
    let ih = skip_fillers-Passes (u ∷ past) us (seen || is_prose u.tok) in
    if_cases (λ (r : List Token × List Token × Bool). Passes past (u ∷ us) r.0 r.1)
      (is_filler u.tok) _ _ (λ _. (omega (arith, ih.0), omega (arith, ih.1)))
      (λ _. (omega arith, refl))

pub Moves-skip_filler : (p : Parser) → Moves p (skip_filler p).0
unfolding skip_filler
Moves-skip_filler p = let h = skip_fillers-Passes p.past p.rest false in Moves-to p _ _ h.0 h.1

skip_closing-Passes :
    (text : Text) (m : Bool) (past rest : List Token)
    → Passes past rest (skip_closing text m past rest).0 (skip_closing text m past rest).1
unfolding skip_closing
skip_closing-Passes text m past [] = (omega arith, refl)
skip_closing-Passes text m past (u ∷ us) =
    let ih = skip_closing-Passes text m (u ∷ past) us in
    if_cases (λ (r : List Token × List Token). Passes past (u ∷ us) r.0 r.1)
      (is_punct u.tok && all (ends_sentence m) (slice text u.start u.end)) _ _
      (λ _. (omega (arith, ih.0), omega (arith, ih.1))) (λ _. (omega arith, refl))

pub Moves-close : (p : Parser) → Moves p (close p)
unfolding close
Moves-close p =
    let h = skip_closing-Passes p.text (is_some p.mention) p.past p.rest in Moves-to p _ _ h.0 h.1

pub Moves-missing : (verb : Text) (e : Expected) (p : Parser) → Moves p (missing verb e p)
unfolding missing
Moves-missing verb e p = Moves-trans (Moves-incomplete p) (Moves-diagnose _ _)

pub Moves-extra : (verb : Text) (p : Parser) → Moves p (extra verb p)
unfolding extra
Moves-extra verb p =
    Moves-trans (Moves-incomplete p) (Moves-trans (Moves-diagnose _ _) (Moves-skip_tail _))

user_arg_at-Moves : (t : Option Tok) (verb : Text) (p : Parser) → Moves p (user_arg_at t verb p).1
unfolding user_arg_at
user_arg_at-Moves (some (user u)) verb p = Moves-advance p
user_arg_at-Moves (some (raw_user raw)) verb p =
    Moves-trans (Moves-incomplete p) (Moves-trans (Moves-diagnose _ _) (Moves-advance _))
user_arg_at-Moves _ verb p = Moves-missing verb user_expected p

pub Moves-user_arg : (verb : Text) (p : Parser) → Moves p (user_arg verb p).1
unfolding user_arg
Moves-user_arg verb p = user_arg_at-Moves (peek p) verb p

pub Moves-end_arguments : (verb : Text) (p : Parser) → Moves p (end_arguments verb p).1
unfolding end_arguments
Moves-end_arguments verb p =
    if_cases (λ (r : Bool × Parser). Moves p r.1) (at_boundary (close p)) _ _ (λ _. Moves-close p)
      (λ _. Moves-trans (Moves-close p) (Moves-extra verb (close p)))
