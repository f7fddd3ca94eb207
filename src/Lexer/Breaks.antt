-- ===== src/Lexer/Breaks.antt =====
-- The character classes of src/commands/lex.rs that hold no line feed and no semicolon.
use xero_bot.Prelude.{ℕ, ◌<◌, ◌≡◌, ◌≢◌, ap, ◌∙◌, Bool, true, false, some, [], ◌∷◌, ◌++◌, arith}
use xero_bot.Text.{
  Text, len, text_eq, is_whitespace, take_while, is_ascii_alphanumeric, is_ascii_alphabetic,
}
use xero_bot.Text.Laws.{len_utf8_pos, text_eq_refl}
use xero_bot.Lexer.{Tok, sigil_tok, is_r, account_char, value_char, word_char, other_char}
use xero_bot.Lexer.Tiling.{count_char, count_char-append, count_char-take_while, NoBreak, Covers}

-- a test that refuses both breaks
abbrev pub RefusesBreaks : (ℕ → Bool) → Type 0
RefusesBreaks p = (c : ℕ) → p c ≡ true → (c ≢ 10) × (c ≢ b';')

pub NoBreak-take_while : (p : ℕ → Bool) → RefusesBreaks p → (s : Text) → NoBreak (take_while p s).0
NoBreak-take_while p h s = (
  count_char-take_while p 10 (λ c e. (h c e).0) s,
  count_char-take_while p b';' (λ c e. (h c e).1) s,
)

pub NoBreak-cons : (c : ℕ) (s : Text) → c ≢ 10 → c ≢ b';' → NoBreak s → NoBreak (c ∷ s)
unfolding count_char
NoBreak-cons c s h k n = ground arith

pub NoBreak-append : (s t : Text) → NoBreak s → NoBreak t → NoBreak (s ++ t)
NoBreak-append s t h k =
    (count_char-append 10 s t ∙ omega arith, count_char-append b';' s t ∙ omega arith)

pub account_char-RefusesBreaks : RefusesBreaks account_char
unfolding account_char is_ascii_alphanumeric
account_char-RefusesBreaks c h = ground arith

pub word_char-alphanumeric : (c : ℕ) → is_ascii_alphanumeric c ≡ true → word_char c ≡ true
unfolding word_char
word_char-alphanumeric c h = ground arith

pub value_char-RefusesBreaks : RefusesBreaks value_char
unfolding value_char is_whitespace
value_char-RefusesBreaks c h = ground arith

pub word_char-RefusesBreaks : RefusesBreaks word_char
unfolding word_char is_ascii_alphanumeric
word_char-RefusesBreaks c h = ground arith

pub alphabetic-RefusesBreaks : RefusesBreaks is_ascii_alphabetic
unfolding is_ascii_alphabetic
alphabetic-RefusesBreaks c h = ground arith

pub other_char-RefusesBreaks : RefusesBreaks other_char
unfolding other_char is_whitespace
other_char-RefusesBreaks c h = ground arith

pub text_ne : (s : Text) → text_eq s [] ≡ false → s ≢ []
text_ne s h e = cc (ap (λ t. text_eq t []) e, text_eq_refl [])

pub sigil-Covers :
    (t : Tok) (c s : ℕ) → is_r c ≡ true → sigil_tok s ≡ some t → Covers t (c ∷ s ∷ [])
unfolding count_char
sigil-Covers t c s h e = ground arith

pub take_while_nonempty :
    (p : ℕ → Bool) (c : ℕ) (cs : Text) → p c ≡ true → 0 < len (take_while p (c ∷ cs)).0
unfolding take_while len
take_while_nonempty p c cs h = rw h (omega (arith, len_utf8_pos c))
