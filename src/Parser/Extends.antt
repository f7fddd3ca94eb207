-- ===== src/Parser/Extends.antt =====
-- What every step of src/commands/parse.rs keeps, and the candidates that it may add.
use xero_bot.Parser.Moves.{Moves}
use xero_bot.Parser.State.{Parser, Span, ParsedCommand}
use xero_bot.Prelude.{
  List, Option, ◌≡◌, All, [], ◌∙◌, arith, sym, ◌++◌, ◌∷◌, length, append-nil, ◌≤◌, ap, ◌+◌,
  append_assoc, All-append, refl, subst,
}

-- A property of a candidate, under the mention in force.
abbrev pub Evidence : Type 1
Evidence = Option Span → ParsedCommand → Type 0

-- A step moves over tokens, keeps the text, the mode and the mention, and appends candidates.
pub record Extends (P : Evidence) (p q : Parser) : Type 0 where
  pub strict : q.strict ≡ p.strict
  pub mention : q.mention ≡ p.mention
  pub text : q.text ≡ p.text
  pub added : List ParsedCommand
  pub appended : q.commands ≡ p.commands ++ added
  pub each : All (P p.mention) added
  pub fewer : length q.rest ≤ length p.rest
  pub same : length q.past + length q.rest ≡ length p.past + length p.rest

pub All-map {ℓ κ μ} :
    {A : Type ℓ} (P : A → Type κ) (Q : A → Type μ)
    → ((a : A) → P a → Q a)
    → (xs : List A) → All P xs
    → All Q xs
All-map P Q h [] k = tt
All-map P Q h (x ∷ xs) k = (h x k.0, All-map P Q h xs k.1)

pub Extends-weaken :
    (P Q : Evidence) {p q : Parser}
    → ((c : ParsedCommand) → P p.mention c → Q p.mention c)
    → Extends P p q
    → Extends Q p q
Extends-weaken P Q {p} {q} f h = record {
  strict = h.strict;
  mention = h.mention;
  text = h.text;
  added = h.added;
  appended = h.appended;
  each = All-map (P p.mention) (Q p.mention) f h.added h.each;
  fewer = h.fewer;
  same = h.same;
}

module _ {P : Evidence} where
  pub Extends-refl : (p : Parser) → Extends P p p
  Extends-refl p = record {
    strict = refl;
    mention = refl;
    text = refl;
    added = [];
    appended = sym (append-nil p.commands);
    each = tt;
    fewer = omega arith;
    same = refl;
  }

  pub Extends-trans : {p q r : Parser} → Extends P p q → Extends P q r → Extends P p r
  Extends-trans {p} {q} {r} h k = record {
    strict = k.strict ∙ h.strict;
    mention = k.mention ∙ h.mention;
    text = k.text ∙ h.text;
    added = h.added ++ k.added;
    appended =
        k.appended ∙ (ap (λ l. l ++ k.added) h.appended ∙ append_assoc p.commands h.added k.added);
    each =
        All-append (P p.mention) h.added k.added h.each
          (subst (λ m. All (P m) k.added) h.mention k.each);
    fewer = omega (arith, h.fewer, k.fewer);
    same = k.same ∙ h.same;
  }

pub Moves→Extends : {P : Evidence} {p q : Parser} → Moves p q → Extends P p q
Moves→Extends {p} {q} h = record {
  strict = h.strict;
  mention = h.mention;
  text = h.text;
  added = [];
  appended = h.commands ∙ sym (append-nil p.commands);
  each = tt;
  fewer = h.fewer;
  same = h.same;
}
