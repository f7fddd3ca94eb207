-- ===== src/Lexer.antt =====
-- src/commands/lex.rs: masked comment text to tokens. The scanner's position is the byte offset and
-- the text that is left; each `lex_` function returns the token with the text it consumed.
pub mod Tiling
pub mod Breaks
pub mod Cuts
pub mod Lex
pub mod Tests
use xero_bot.Prelude.{
  ℕ, zero, suc, ◌+◌, Bool, true, false, not, ◌&&◌, ◌||◌, Option, none, some, List, [], ◌∷◌, ◌++◌,
  leb, ◌==◌, if◌then◌else◌, any, all, length,
}
use xero_bot.Text.{
  Text, codes, len, mem_char, text_eq, is_ascii_alphanumeric, is_ascii_alphabetic, is_whitespace,
  is_control, to_ascii_lowercase, eq_ignore_ascii_case, without_suffix, starts_with, take_while,
  peek_at, strip_suffix,
}

pub data Tok : Type 0 where
  bot review_req approve approve_as reject short_ready as_word semi newline punct prose : Tok
  user raw_user word plus minus : Text → Tok

pub record Token : Type 0 where
  pub tok : Tok
  pub start : ℕ
  pub end : ℕ

-- `contains("--")`
unfoldable pub has_double_hyphen : Text → Bool
has_double_hyphen [] = false
has_double_hyphen (c ∷ cs) = c == b'-' && starts_with cs (codes "-") || has_double_hyphen cs

unfoldable pub login_char : ℕ → Bool
login_char c = is_ascii_alphanumeric c || c == b'-'

unfoldable pub is_valid_login : Text → Bool
unfolding has_double_hyphen login_char
is_valid_login s =
    not (text_eq s [])
    && leb (len s) 39
    && not (starts_with s (codes "-"))
    && not (elim (strip_suffix (codes "-") s) [ none ↦ false | some _ ↦ true ])
    && not (has_double_hyphen s)
    && all login_char s

-- the characters `"` `,` `;` `:` `\` `<` `>` `|` and the backtick
abbrev not_in_labels : Text
not_in_labels = 34 ∷ 44 ∷ 59 ∷ 58 ∷ 92 ∷ 60 ∷ 62 ∷ 124 ∷ 96 ∷ []

unfoldable pub is_valid_label : Text → Bool
is_valid_label s =
    not (text_eq s [])
    && leb (len s) 100
    && not (any (λ c. is_control c || mem_char c not_in_labels) s)

-- A token's kind, the text that it covers, and what is left.
abbrev pub Lexed : Type 0
Lexed = Tok × Text × Text

unfoldable pub account_char : ℕ → Bool
account_char c = is_ascii_alphanumeric c || mem_char c (codes "-_[]/" ++ 92 ∷ [])

abbrev pub bot_suffix : Text
bot_suffix = codes "[bot]"

unfoldable pub at_tok : Text → Text → Tok
at_tok me raw =
    let name = without_suffix bot_suffix (to_ascii_lowercase raw) in
    if not (text_eq me []) && is_valid_login name && text_eq name me
    then bot
    else if is_valid_login raw
    then user raw
    else raw_user raw

-- `lex_at`, after the `@`
unfoldable pub lex_at : Text → Text → Lexed
lex_at me cs = let r = take_while account_char cs in (at_tok me r.0, b'@' ∷ r.0, r.1)

unfoldable pub value_char : ℕ → Bool
value_char c = not (is_whitespace c) && not (c == b';') && not (c == b',')

-- `lex_signed`, after the sign
unfoldable pub lex_signed : ℕ → Text → Lexed
lex_signed sign cs =
    let r = take_while value_char cs in
    if text_eq r.0 []
    then (punct, sign ∷ [], cs)
    else (if sign == b'+' then plus r.0 else minus r.0, sign ∷ r.0, r.1)

unfoldable pub word_char : ℕ → Bool
word_char c = is_ascii_alphanumeric c || c == b'-' || c == b'_'

unfoldable pub word_tok : Text → Tok
word_tok w = if eq_ignore_ascii_case w (codes "as") then as_word else word (to_ascii_lowercase w)

-- the word is `w`; `rollup=` takes its value along
unfoldable pub plain_end : Text → Text → Lexed
plain_end w [] = (word_tok w, w, [])
plain_end w (d ∷ ds) =
    if eq_ignore_ascii_case w (codes "rollup") && d == b'='
    then (let v = take_while is_ascii_alphabetic ds in (word_tok (w ++ d ∷ v.0), w ++ d ∷ v.0, v.1))
    else (word_tok w, w, d ∷ ds)

-- the part of `lex_word` below the sigils
unfoldable pub lex_plain : Text → Lexed
lex_plain cs = let r = take_while word_char cs in plain_end r.0 r.1

abbrev pub sigil_tok : ℕ → Option Tok
sigil_tok c =
    if c == b'?'
    then some review_req
    else if c == b'+'
    then some approve
    else if c == b'='
    then some approve_as
    else if c == b'-'
    then some reject
    else none

-- whether a character, if there is one, passes the test
abbrev pub is_some_and : (ℕ → Bool) → Option ℕ → Bool
is_some_and p none = false
is_some_and p (some c) = p c

abbrev pub is_r : ℕ → Bool
is_r c = c == b'r' || c == b'R'

-- `terminated || sigil != '-'`
abbrev pub sigil_ends : ℕ → Text → Bool
sigil_ends s cs = not (is_some_and login_char (peek_at cs 2)) || not (s == b'-')

-- the sigil at the head of `c ∷ cs`, with what follows it
unfoldable pub r_sigil : ℕ → Text → Option Lexed
r_sigil c [] = none
r_sigil c (s ∷ cs) =
    if is_r c && sigil_ends s (c ∷ s ∷ cs)
    then elim (sigil_tok s) [ none ↦ none | some t ↦ some (t, c ∷ s ∷ [], cs) ]
    else none

unfoldable pub lex_word : ℕ → Text → Lexed
lex_word c cs = elim (r_sigil c cs) [ some l ↦ l | none ↦ lex_plain (c ∷ cs) ]

unfoldable pub other_char : ℕ → Bool
other_char c =
    not (is_whitespace c)
    && not (c == b'@')
    && not (c == b';')
    && not (c == b'+')
    && not (c == b'-')
    && not (c == b'?')
    && not (is_ascii_alphanumeric c)

-- the normalisation of the bot's name in `lex`: the suffix is stripped from the lower-case name, and
-- a name without it is used whole
unfoldable pub bot_key : Text → Text
bot_key bot_name =
    to_ascii_lowercase (elim (strip_suffix bot_suffix (to_ascii_lowercase bot_name)) [
      | none ↦ bot_name
      | some n ↦ n
    ])

abbrev pub emit_tok : Lexed → Option Tok × Text × Text
emit_tok l = (some l.0, l.1, l.2)

abbrev pub push : Option Tok → ℕ → ℕ → List Token → List Token
push none from to toks = toks
push (some t) from to toks = record { tok = t; start = from; end = to } ∷ toks

-- `char::is_alphanumeric` is the standard library's Unicode table: a parameter.
module _ (is_alphanumeric : ℕ → Bool) where
  unfoldable pub other_kind : Text → Tok
  other_kind run = if any is_alphanumeric run then prose else punct

  unfoldable pub lex_other : ℕ → Text → Lexed
  lex_other c cs = let r = take_while other_char cs in (other_kind (c ∷ r.0), c ∷ r.0, r.1)

  -- `lex_question`, after the `?`
  unfoldable pub lex_question : Text → Lexed
  lex_question [] = lex_other b'?' []
  lex_question (r ∷ cs) =
      if is_r r && not (is_some_and is_ascii_alphanumeric (peek_at (b'?' ∷ r ∷ cs) 2))
      then (short_ready, b'?' ∷ r ∷ [], cs)
      else lex_other b'?' (r ∷ cs)

  -- the `match` of `run`; white space gives no token
  unfoldable pub next : Text → ℕ → Text → Option Tok × Text × Text
  next me c cs =
      if c == 10
      then (some newline, c ∷ [], cs)
      else if c == b';'
      then (some semi, c ∷ [], cs)
      else if is_whitespace c
      then (none, c ∷ [], cs)
      else if c == b'@'
      then emit_tok (lex_at me cs)
      else if c == b'?'
      then emit_tok (lex_question cs)
      else if c == b'+' || c == b'-'
      then emit_tok (lex_signed c cs)
      else if is_ascii_alphanumeric c
      then emit_tok (lex_word c cs)
      else emit_tok (lex_other c cs)

  -- `Lexer::run` on fuel, a round for each character at most
  unfoldable pub run : ℕ → Text → ℕ → Text → List Token
  run fuel me at [] = []
  run zero me at (c ∷ cs) = []
  run (suc fuel) me at (c ∷ cs) =
      let (t, raw, rest) = next me c cs in
      push t at (at + len raw) (run fuel me (at + len raw) rest)

  unfoldable pub lex : Text → Text → List Token
  unfolding run next bot_key lex_at at_tok is_valid_login is_valid_label is_control lex_question
      lex_signed lex_word lex_plain plain_end word_tok r_sigil lex_other other_kind account_char
      value_char word_char other_char login_char is_whitespace text_eq to_ascii_lowercase
      strip_suffix without_suffix take_while is_ascii_alphanumeric is_ascii_alphabetic len
      eq_ignore_ascii_case starts_with peek_at
  lex bot_name text = run (length text) (bot_key bot_name) 0 text
