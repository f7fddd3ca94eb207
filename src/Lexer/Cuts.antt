-- ===== src/Lexer/Cuts.antt =====
-- Each `lex_` function of src/commands/lex.rs cuts a token off the front of the text.
use xero_bot.Lexer.Breaks.{
  NoBreak-take_while, NoBreak-cons, NoBreak-append, account_char-RefusesBreaks,
  word_char-alphanumeric, value_char-RefusesBreaks, word_char-RefusesBreaks,
  alphabetic-RefusesBreaks, other_char-RefusesBreaks, text_ne, sigil-Covers, take_while_nonempty,
}
use xero_bot.Prelude.{
  ℕ, ◌<◌, ◌≡◌, ◌≢◌, refl, subst, ap, ◌∙◌, ◌⊎◌, inl, inr, Bool, true, Option, none, some, [], ◌∷◌,
  ◌++◌, ◌==◌, any, if◌then◌else◌, Option-cases, if_cases, and-true_inv, not, ◌&&◌, arith,
  append_assoc, ==_iff, ◌||◌,
}
use xero_bot.Text.{
  Text, codes, len, text_eq, is_whitespace, to_ascii_lowercase, eq_ignore_ascii_case,
  without_suffix, take_while, peek_at, is_ascii_alphanumeric, is_ascii_alphabetic,
}
use xero_bot.Text.Laws.{take_while_split, text_eq→eq, len_utf8_pos, len-append}
use xero_bot.Lexer.{
  Tok, Lexed, plain_end, sigil_tok, is_r, is_some_and, at_tok, lex_at, lex_signed, word_tok,
  lex_plain, r_sigil, lex_word, other_kind, lex_other, lex_question, next, review_req, approve,
  approve_as, reject, short_ready, semi, newline, punct, plus, minus, emit_tok, account_char,
  value_char, word_char, other_char, is_valid_login, bot_suffix,
}
use xero_bot.Lexer.Tiling.{count_char, NoBreak, Spells, Covers}

-- What cutting a token off `text` means.
module _ (is_alphanumeric : ℕ → Bool) (me : Text) where
  pub record Cut (text : Text) (l : Lexed) : Type 0 where
    pub split : l.1 ++ l.2 ≡ text
    pub spells : Spells is_alphanumeric me l.0 l.1
    pub covers : Covers l.0 l.1
    pub nonempty : 0 < len l.1

  at_tok-Spells : (n : Text) → Spells is_alphanumeric me (at_tok me n) (b'@' ∷ n)
  unfolding at_tok
  at_tok-Spells n =
      let name = without_suffix bot_suffix (to_ascii_lowercase n) in
      if_cases (λ t. Spells is_alphanumeric me t (b'@' ∷ n))
        (not (text_eq me []) && is_valid_login name && text_eq name me) _ _
        (λ h. (n, refl, ground (arith, text_eq→eq name me), ground (arith, text_eq→eq name me)))
        (λ _.
          if_cases (λ t. Spells is_alphanumeric me t (b'@' ∷ n)) (is_valid_login n) _ _
            (λ h. (refl, h)) (λ h. (refl, h)))

  at_tok-Covers : (n : Text) → NoBreak n → Covers (at_tok me n) (b'@' ∷ n)
  unfolding at_tok count_char
  at_tok-Covers n h = ground arith

  Cut-lex_at : (cs : Text) → Cut (b'@' ∷ cs) (lex_at me cs)
  unfolding lex_at len
  Cut-lex_at cs = record {
    split = ap (λ t. b'@' ∷ t) (take_while_split account_char cs);
    spells = at_tok-Spells (take_while account_char cs).0;
    covers = at_tok-Covers _ (NoBreak-take_while account_char account_char-RefusesBreaks cs);
    nonempty = omega (arith, len_utf8_pos b'@');
  }

  sigil-Spells :
      (t : Tok) (c s : ℕ)
      → is_r c ≡ true
      → sigil_tok s ≡ some t
      → Spells is_alphanumeric me t (c ∷ s ∷ [])
  sigil-Spells review_req c s h e = (c, h, ground arith)
  sigil-Spells approve c s h e = (c, h, ground arith)
  sigil-Spells approve_as c s h e = (c, h, ground arith)
  sigil-Spells reject c s h e = (c, h, ground arith)
  sigil-Spells _ c s h e = absurd (ground arith)

  word_tok-Spells : (w : Text) → Spells is_alphanumeric me (word_tok w) w
  unfolding word_tok
  word_tok-Spells w =
      if_cases (λ t. Spells is_alphanumeric me t w) (eq_ignore_ascii_case w (codes "as")) _ _
        (λ h. h) (λ _. refl)

  word_tok-Covers : (w : Text) → NoBreak w → Covers (word_tok w) w
  unfolding word_tok
  word_tok-Covers w h = ground arith

  -- the sign of a label, or punctuation
  Cut-sign :
      (sign : ℕ) (cs : Text)
      → (sign ≡ b'+') ⊎ (sign ≡ b'-')
      → Cut (sign ∷ cs) (punct, sign ∷ [], cs)
  unfolding len count_char
  Cut-sign sign cs h = record {
    split = refl;
    spells = inr (ground arith);
    covers = ground arith;
    nonempty = omega (arith, len_utf8_pos sign);
  }

  Cut-label :
      (sign : ℕ) (v rest cs : Text)
      → (sign ≡ b'+') ⊎ (sign ≡ b'-')
      → v ≢ []
      → NoBreak v
      → v ++ rest ≡ cs
      → Cut (sign ∷ cs) (if sign == b'+' then plus v else minus v, sign ∷ v, rest)
  unfolding len count_char
  Cut-label sign v rest cs h ne nb e = record {
    split = ap (λ t. sign ∷ t) e;
    spells =
        if_cases (λ t. Spells is_alphanumeric me t (sign ∷ v)) (sign == b'+') _ _
          (λ p. (ground arith, ne)) (λ p. (ground arith, ne));
    covers = ground arith;
    nonempty = omega (arith, len_utf8_pos sign);
  }

  Cut-lex_signed :
      (sign : ℕ) (cs : Text) → (sign ≡ b'+') ⊎ (sign ≡ b'-') → Cut (sign ∷ cs) (lex_signed sign cs)
  unfolding lex_signed
  Cut-lex_signed sign cs h =
      if_cases (Cut (sign ∷ cs)) (text_eq (take_while value_char cs).0 []) _ _
        (λ _. Cut-sign sign cs h)
        (λ e.
          Cut-label sign _ _ cs h (text_ne _ e)
            (NoBreak-take_while value_char value_char-RefusesBreaks cs)
            (take_while_split value_char cs))

  Cut-lex_other :
      (c : ℕ) (cs : Text) → c ≢ 10 → c ≢ b';' → Cut (c ∷ cs) (lex_other is_alphanumeric c cs)
  unfolding lex_other other_kind len
  Cut-lex_other c cs h k =
      let nb : NoBreak (c ∷ (take_while other_char cs).0) =
        NoBreak-cons c _ h k (NoBreak-take_while other_char other_char-RefusesBreaks cs) in
      record {
        split = ap (λ t. c ∷ t) (take_while_split other_char cs);
        spells =
            if_cases (λ t. Spells is_alphanumeric me t (c ∷ (take_while other_char cs).0))
              (any is_alphanumeric (c ∷ (take_while other_char cs).0)) _ _ (λ e. e) (λ e. inl e);
        covers =
            if_cases (λ t. Covers t (c ∷ (take_while other_char cs).0))
              (any is_alphanumeric (c ∷ (take_while other_char cs).0)) _ _ (λ _. nb) (λ _. nb);
        nonempty = omega (arith, len_utf8_pos c);
      }

  Cut-short_ready :
      (r : ℕ) (cs : Text) → is_r r ≡ true → Cut (b'?' ∷ r ∷ cs) (short_ready, b'?' ∷ r ∷ [], cs)
  unfolding len count_char
  Cut-short_ready r cs h = record {
    split = refl;
    spells = (r, h, refl);
    covers = ground arith;
    nonempty = omega (arith, len_utf8_pos b'?');
  }

  Cut-lex_question : (cs : Text) → Cut (b'?' ∷ cs) (lex_question is_alphanumeric cs)
  unfolding lex_question
  Cut-lex_question [] = Cut-lex_other b'?' [] (omega arith) (omega arith)
  Cut-lex_question (r ∷ cs) =
      if_cases (Cut (b'?' ∷ r ∷ cs))
        (is_r r && not (is_some_and is_ascii_alphanumeric (peek_at (b'?' ∷ r ∷ cs) 2))) _ _
        (λ h. Cut-short_ready r cs (and-true_inv _ _ h).0)
        (λ _. Cut-lex_other b'?' (r ∷ cs) (omega arith) (omega arith))

  Cut-plain_word :
      (w rest cs : Text) → NoBreak w → 0 < len w → w ++ rest ≡ cs → Cut cs (word_tok w, w, rest)
  Cut-plain_word w rest cs nb h e = record {
    split = e;
    spells = word_tok-Spells w;
    covers = word_tok-Covers w nb;
    nonempty = h;
  }

  Cut-plain_end :
      (w rest cs : Text) → NoBreak w → 0 < len w → w ++ rest ≡ cs → Cut cs (plain_end w rest)
  unfolding plain_end
  Cut-plain_end w [] cs nb h e = Cut-plain_word w [] cs nb h e
  Cut-plain_end w (d ∷ ds) cs nb h e =
      let v = take_while is_ascii_alphabetic ds in
      if_cases (Cut cs) (eq_ignore_ascii_case w (codes "rollup") && d == b'=') _ _
        (λ t.
          Cut-plain_word (w ++ d ∷ v.0) v.1 cs
            (NoBreak-append w (d ∷ v.0) nb (
              NoBreak-cons d v.0 (ground arith) (ground arith)
                (NoBreak-take_while is_ascii_alphabetic alphabetic-RefusesBreaks ds)))
            (omega (arith, len-append w (d ∷ v.0)))
            (append_assoc w (d ∷ v.0) v.1
              ∙ (ap (λ r. w ++ d ∷ r) (take_while_split is_ascii_alphabetic ds) ∙ e)))
        (λ _. Cut-plain_word w (d ∷ ds) cs nb h e)

  Cut-lex_plain : (c : ℕ) (cs : Text) → word_char c ≡ true → Cut (c ∷ cs) (lex_plain (c ∷ cs))
  unfolding lex_plain
  Cut-lex_plain c cs h =
      Cut-plain_end _ _ (c ∷ cs) (NoBreak-take_while word_char word_char-RefusesBreaks (c ∷ cs))
        (take_while_nonempty word_char c cs h) (take_while_split word_char (c ∷ cs))

  -- a sigil: `r` or `R`, then the sign
  Cut-sigil :
      (t : Tok) (c s : ℕ) (cs : Text)
      → is_r c ≡ true
      → sigil_tok s ≡ some t
      → Cut (c ∷ s ∷ cs) (t, c ∷ s ∷ [], cs)
  unfolding len count_char
  Cut-sigil t c s cs h e = record {
    split = refl;
    spells = sigil-Spells t c s h e;
    covers = sigil-Covers t c s h e;
    nonempty = omega (arith, len_utf8_pos c);
  }

  Cut-r_sigil : (c : ℕ) (cs : Text) (l : Lexed) → r_sigil c cs ≡ some l → Cut (c ∷ cs) l
  unfolding r_sigil
  Cut-r_sigil c [] l h = cc
  Cut-r_sigil c (s ∷ cs) l h = elim (Option-cases (sigil_tok s)) [
    | inl e ↦ absurd (ground arith)
    | inr (t, e) ↦ subst (Cut (c ∷ s ∷ cs)) (ground arith) (Cut-sigil t c s cs (ground arith) e)
  ]

  Cut-lex_word : (c : ℕ) (cs : Text) → is_ascii_alphanumeric c ≡ true → Cut (c ∷ cs) (lex_word c cs)
  unfolding lex_word
  Cut-lex_word c cs h = elim (Option-cases (r_sigil c cs)) [
    | inl e ↦ rw (e, lex_word) (Cut-lex_plain c cs (word_char-alphanumeric c h))
    | inr (l, e) ↦ rw (e, lex_word) (Cut-r_sigil c cs l e)
  ]

  -- What one round of `run` does with the text.
  pub data Round (text : Text) : Option Tok × Text × Text → Type 0 where
    blank :
        (c : ℕ) (cs : Text)
        → text ≡ c ∷ cs
        → is_whitespace c ≡ true
        → NoBreak (c ∷ [])
        → Round text (none, c ∷ [], cs)
    cut : (l : Lexed) → Cut text l → Round text (emit_tok l)

  pub next-Round : (c : ℕ) (cs : Text) → Round (c ∷ cs) (next is_alphanumeric me c cs)
  unfolding next count_char len
  next-Round c cs =
      if_cases (Round (c ∷ cs)) (c == 10) _ _
        (λ h.
          cut (newline, c ∷ [], cs)
            (record {
              split = refl;
              spells = ground arith;
              covers = ground arith;
              nonempty = omega (arith, len_utf8_pos c);
            }))
        λ n.
          if_cases (Round (c ∷ cs)) (c == b';') _ _
            (λ h.
              cut (semi, c ∷ [], cs)
                (record {
                  split = refl;
                  spells = ground arith;
                  covers = ground arith;
                  nonempty = omega (arith, len_utf8_pos c);
                }))
            λ m.
              if_cases (Round (c ∷ cs)) (is_whitespace c) _ _
                (λ h. blank c cs refl h (ground arith))
                λ _.
                  if_cases (Round (c ∷ cs)) (c == b'@') _ _
                    (λ h. rw ((==_iff c b'@').0 h) (cut _ (Cut-lex_at cs)))
                    λ _.
                      if_cases (Round (c ∷ cs)) (c == b'?') _ _
                        (λ h. rw ((==_iff c b'?').0 h) (cut _ (Cut-lex_question cs)))
                        λ _.
                          if_cases (Round (c ∷ cs)) (c == b'+' || c == b'-') _ _
                            (λ h. cut _ (Cut-lex_signed c cs (ground arith)))
                            λ _.
                              if_cases (Round (c ∷ cs)) (is_ascii_alphanumeric c) _ _
                                (λ h. cut _ (Cut-lex_word c cs h))
                                λ _. cut _ (Cut-lex_other c cs (ground arith) (ground arith))
