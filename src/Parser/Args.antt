-- ===== src/Parser/Args.antt =====
-- Arguments: `user_arg`, `end_arguments`, `user_list`, `single_user`, `label_args`.
use xero_bot.Lexer.{Tok, Token, user, punct, plus, raw_user, is_valid_label, minus}
use xero_bot.Text.{Text, mem_char, codes, eq_ignore_ascii_case, text_eq, slice}
use xero_bot.Prelude.{
  Bool, List, ℕ, Option, length, false, true, if◌then◌else◌, some, none, ◌+◌, suc, [], ◌∷◌, ◌||◌,
  ◌==◌, ◌&&◌, any, zero, not, all, ◌++◌,
}
use xero_bot.Parser.State.{
  Parser, SourceForm, last_end, skip_tail, peek, advance, emit, at_boundary, diagnose, missing,
  span, extra, invalid_login, invalid_label, labels_expected, incomplete, user_expected,
}
use xero_bot.Command.{Command}

unfoldable pub user_arg_at : Option Tok → Text → Parser → Option Text × Parser
user_arg_at (some (user u)) verb p = (some u, advance p)
user_arg_at (some (raw_user raw)) verb p =
    (none, advance (diagnose (invalid_login raw (span p)) (incomplete p)))
user_arg_at _ verb p = (none, missing verb user_expected p)

unfoldable pub user_arg : Text → Parser → Option Text × Parser
user_arg verb p = user_arg_at (peek p) verb p

-- `.` `,` `!` `:` `?` and the full-width `。` `，` `！` `：` `？` `、`
abbrev pub sentence_end : Text
sentence_end = codes ".,!:?。，！：？、"

abbrev pub is_some {ℓ} : {A : Type ℓ} → Option A → Bool
is_some none = false
is_some (some _) = true

unfoldable pub ends_sentence : Bool → ℕ → Bool
ends_sentence mentioned c = mem_char c sentence_end || mentioned && mem_char c (codes ")）")

abbrev pub is_punct : Tok → Bool
is_punct punct = true
is_punct _ = false

-- the loop of `end_arguments` over the sentence's closing punctuation
unfoldable pub skip_closing : Text → Bool → List Token → List Token → List Token × List Token
skip_closing text mentioned past [] = (past, [])
skip_closing text mentioned past (u ∷ us) =
    let moved = skip_closing text mentioned (u ∷ past) us in
    if is_punct u.tok && all (ends_sentence mentioned) (slice text u.start u.end)
    then moved
    else (past, u ∷ us)

unfoldable pub close : Parser → Parser
close p =
    let r = skip_closing p.text (is_some p.mention) p.past p.rest in
    record p { past = r.0; rest = r.1 }

unfoldable pub end_arguments : Text → Parser → Bool × Parser
end_arguments verb p = let q = close p in if at_boundary q then (true, q) else (false, extra verb q)

abbrev pub is_empty {ℓ} : {A : Type ℓ} → List A → Bool
is_empty [] = true
is_empty (_ ∷ _) = false

abbrev pub names_user : Option Tok → Bool
names_user (some (user _)) = true
names_user (some (raw_user _)) = true
names_user _ = false

unfoldable pub add_user : Text → List Text → List Text
add_user u users = if any (λ v. eq_ignore_ascii_case v u) users then users else users ++ u ∷ []

-- `end_arguments("cc").then_some(users)`
unfoldable pub end_users : List Text → Parser → Option (List Text) × Parser
end_users users p = let r = end_arguments (codes "cc") p in (if r.0 then some users else none, r.1)

abbrev pub is_punct_next : Parser → Bool
is_punct_next p = elim (peek p) [ none ↦ false | some t ↦ is_punct t ]

-- `toks[pos - 1].span.end == span().start`
unfoldable pub touches : Parser → Bool
touches p = last_end p.past == (span p).from

abbrev pub Users : Type 0
Users = Option (List Text) × Parser

-- a round of `user_list` after its user has been added; `again` is the next round
unfoldable pub after_user : (List Text → Parser → Users) → List Text → Parser → Users
after_user again users p =
    if at_boundary p
    then (some users, p)
    else if is_punct_next p && text_eq (slice p.text (span p).from (span p).to) (codes ",")
    then (let q = advance p in
        if not (names_user (peek q)) then end_users users q else again users q)
    else if is_punct_next p
    then end_users users p
    else if not (names_user (peek p)) || touches p
    then (none, extra (codes "cc") p)
    else again users p

unfoldable pub with_user : (List Text → Parser → Users) → List Text → Option Text × Parser → Users
with_user again users (none, p) = (none, skip_tail p)
with_user again users (some u, p) = after_user again (add_user u users) p

-- `user_list`'s loop; fuel bounds its rounds, of which each takes a token
unfoldable pub user_rounds : ℕ → List Text → Parser → Users
user_rounds zero users p = (none, p)
user_rounds (suc fuel) users p = with_user (user_rounds fuel) users (user_arg (codes "cc") p)

unfoldable pub user_list : Parser → Users
user_list p = user_rounds (length p.rest + 1) [] p

-- the end of `single_user`: both the user and the ending must be right
unfoldable pub emit_user : Text → ℕ → SourceForm → Option Text → Bool → Parser → Parser
emit_user verb start source (some name) true p =
    emit
      (if text_eq verb (codes "assign") then Command.assign name else Command.request_review name)
      start source p
emit_user verb start source _ _ p = p

unfoldable pub single_user : Text → ℕ → SourceForm → Parser → Parser
single_user verb start source p =
    let (u, q) = user_arg verb p in
    let (valid, r) = end_arguments verb q in emit_user verb start source u valid r

-- What `label_args` has collected.
pub record Labels : Type 0 where
  pub add : List Text
  pub remove : List Text
  pub valid : Bool

unfoldable pub bad_label : Text → Labels → Parser → Labels × Parser
bad_label name l p =
    (record l { valid = false }, advance (diagnose (invalid_label name (span p)) p))

-- a round of `label_args` on the token in front
unfoldable pub label_round : Option Tok → Labels → Parser → Labels × Parser
label_round (some (plus name)) l p =
    if not (is_valid_label name)
    then bad_label name l p
    else (record l { add = l.add ++ name ∷ [] }, advance p)
label_round (some (minus name)) l p =
    if not (is_valid_label name)
    then bad_label name l p
    else (record l { remove = l.remove ++ name ∷ [] }, advance p)
label_round _ l p = (record l { valid = false }, extra (codes "label") p)

-- the loop of `label_args`, on fuel: each round takes a token, or goes to the boundary
unfoldable pub label_rounds : ℕ → Labels → Parser → Labels × Parser
label_rounds zero l p = (l, p)
label_rounds (suc fuel) l p =
    let rest = (let (l', p') = label_round (peek p) l p in label_rounds fuel l' p') in
    if at_boundary p then (l, p) else rest

unfoldable pub label_emit : ℕ → SourceForm → Labels → Parser → Parser
label_emit start source l p =
    if is_empty l.add && is_empty l.remove
    then missing (codes "label") labels_expected p
    else if l.valid
    then emit (Command.label l.add l.remove) start source p
    else p

-- the end of `label_args`
unfoldable pub label_end : ℕ → SourceForm → Labels → Parser → Parser
label_end start source l p =
    let q = label_emit start source l p in record q { complete = q.complete && l.valid }

unfoldable pub label_args : ℕ → SourceForm → Parser → Parser
label_args start source p =
    let (l, q) =
      label_rounds (length p.rest + 1) (record { add = []; remove = []; valid = true }) p in
    label_end start source l q
