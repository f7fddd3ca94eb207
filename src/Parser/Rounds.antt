-- ===== src/Parser/Rounds.antt =====
-- The fuel of `user_list` and of `mention_command` (src/commands/parse.rs).
use xero_bot.Parser.TailAdds.{verb_tail-Extends}
use xero_bot.Parser.Tail.{verb_tail}
use xero_bot.Parser.Program.{is_semi_next, mention_rounds}
use xero_bot.Parser.Progress.{advance-shrinks}
use xero_bot.Parser.Moves.{Moves-advance}
use xero_bot.Parser.State.{Parser, peek, advance, head_tok, at_boundary}
use xero_bot.Lexer.{Tok, user, raw_user, Token}
use xero_bot.Text.{Text, codes}
use xero_bot.Prelude.{
  refl, inl, inr, ℕ, List, Option, ◌≡◌, length, arith, ◌≤◌, some, ◌<◌, none, Bool, true, suc, ◌+◌,
  Option-cases, ◌∷◌, zero, [], Bool-cases, if◌then◌else◌,
}
use xero_bot.Parser.Args.{
  with_user, after_user, user_arg_at, Users, add_user, user_rounds, user_arg,
}

head_tok-some : (us : List Token) (t : Tok) → head_tok us ≡ some t → 0 < length us
head_tok-some [] t h = cc
head_tok-some (u ∷ us) t h = omega arith

peek_rest : (p : Parser) (t : Tok) → peek p ≡ some t → 0 < length p.rest
unfolding peek
peek_rest p t h = head_tok-some p.rest t h

-- a user is read off a token
user_arg_at-shrinks :
    (t : Option Tok) (verb : Text) (p : Parser)
    → peek p ≡ t
    → (u : Text) × ((user_arg_at t verb p).0 ≡ some u)
    → length (user_arg_at t verb p).1.rest < length p.rest
unfolding user_arg_at
user_arg_at-shrinks (some (user u)) verb p e h = advance-shrinks p (peek_rest p (user u) e)
user_arg_at-shrinks (some (raw_user raw)) verb p e (u, h) = cc
user_arg_at-shrinks _ verb p e (u, h) = cc

-- the loop gives the same from here on, on tokens that are not more than those
abbrev Agree : ℕ → (List Text → Parser → Users) → (List Text → Parser → Users) → Type 0
Agree n f g = (users : List Text) (p : Parser) → length p.rest ≤ n → f users p ≡ g users p

after_user-Agree :
    (f g : List Text → Parser → Users) (users : List Text) (p : Parser)
    → Agree (length p.rest) f g
    → after_user f users p ≡ after_user g users p
unfolding after_user
after_user-Agree f g users p h =
    rw (h users p (omega arith)) (rw (h users (advance p) (Moves-advance p).fewer) refl)

with_user-Agree :
    (f g : List Text → Parser → Users) (users : List Text) (r : Option Text × Parser)
    → ((u : Text) × (r.0 ≡ some u) → Agree (length r.1.rest) f g)
    → with_user f users r ≡ with_user g users r
unfolding with_user
with_user-Agree f g users (none, p) h = refl
with_user-Agree f g users (some u, p) h = after_user-Agree f g (add_user u users) p (h (u, refl))

-- `user_rounds` with a value of its own for the state in which the fuel is used up
unfoldable pub user_rounds_or : (List Text → Parser → Users) → ℕ → List Text → Parser → Users
user_rounds_or out zero users p = out users p
user_rounds_or out (suc fuel) users p =
    with_user (user_rounds_or out fuel) users (user_arg (codes "cc") p)

user_rounds_ends :
    (out : List Text → Parser → Users) (m n : ℕ) (users : List Text) (p : Parser)
    → length p.rest < m
    → length p.rest < n
    → user_rounds_or out m users p ≡ user_rounds n users p
unfolding user_rounds user_rounds_or user_arg
user_rounds_ends out zero n users p h k = absurd (omega arith)
user_rounds_ends out (suc m) zero users p h k = absurd (omega arith)
user_rounds_ends out (suc m) (suc n) users p h k =
    with_user-Agree (user_rounds_or out m) (user_rounds n) users (user_arg (codes "cc") p)
      (λ u users' q fewer.
        let shrinks = user_arg_at-shrinks (peek p) (codes "cc") p refl u in
        user_rounds_ends out m n users' q (omega arith) (omega arith))

semi-rest : (p : Parser) → is_semi_next p ≡ true → 0 < length p.rest
semi-rest p h = elim (Option-cases (peek p)) [ inl e ↦ cc | inr (t, e) ↦ peek_rest p t e ]

-- `mention_rounds` with a value of its own for the state in which the fuel is used up
unfoldable pub mention_rounds_or : (Bool → Parser → Parser) → ℕ → Bool → Parser → Parser
mention_rounds_or out zero addressed p = out addressed p
mention_rounds_or out (suc fuel) addressed p =
    let q = verb_tail addressed p in
    let again = mention_rounds_or out fuel addressed (advance q) in
    if is_semi_next q then (if at_boundary (advance q) then advance q else again) else q

mention_rounds_ends :
    (out : Bool → Parser → Parser) (m n : ℕ) (addressed : Bool) (p : Parser)
    → length p.rest < m
    → length p.rest < n
    → mention_rounds_or out m addressed p ≡ mention_rounds n addressed p
unfolding mention_rounds mention_rounds_or
mention_rounds_ends out zero n addressed p h k = absurd (omega arith)
mention_rounds_ends out (suc m) zero addressed p h k = absurd (omega arith)
mention_rounds_ends out (suc m) (suc n) addressed p h k =
    let q = verb_tail addressed p in
    let fewer = (verb_tail-Extends addressed p).fewer in
    elim (Bool-cases (is_semi_next q)) [
      | inl e ↦
          let shrinks = advance-shrinks q (semi-rest q e) in
          let ih = mention_rounds_ends out m n addressed (advance q) (omega arith) (omega arith) in
          rw ih refl
      | inr e ↦ rw e refl
    ]

-- With one unit of fuel more than tokens, the loops of `user_list` and of `mention_command` never use it
-- up: whatever value is given for the state in which the fuel is used up, and with any extra fuel,
-- they return what the model's loops return, so they end by their own tests.
pub outer_loops_end :
    (out_of_users : List Text → Parser → Users) (out_of_mention : Bool → Parser → Parser)
    (extra_fuel : ℕ) (users : List Text) (addressed : Bool) (p : Parser)
    → (user_rounds_or out_of_users (length p.rest + 1 + extra_fuel) users p
        ≡ user_rounds (length p.rest + 1) users p)
      × (mention_rounds_or out_of_mention (length p.rest + 1 + extra_fuel) addressed p
          ≡ mention_rounds (length p.rest + 1) addressed p)
outer_loops_end out_of_users out_of_mention extra_fuel users addressed p = (
  user_rounds_ends out_of_users _ _ users p (omega arith) (omega arith),
  mention_rounds_ends out_of_mention _ _ addressed p (omega arith) (omega arith),
)
