-- ===== src/Lexer/Tiling.antt =====
-- What a token's text is, for each kind of token, and how tokens tile the comment. This is an
-- account of src/commands/lex.rs with no scanning order in it.
use xero_bot.Prelude.{
  refl, ℕ, ◌+◌, ◌≡◌, ◌≢◌, ◌⊎◌, Bool, true, false, List, [], ◌∷◌, ◌++◌, ◌<◌, ◌==◌, any,
  if◌then◌else◌, arith, Bool-cases, inl, inr,
}
use xero_bot.Text.{
  Text, codes, len, is_whitespace, to_ascii_lowercase, eq_ignore_ascii_case, without_suffix,
  take_while,
}
use xero_bot.Lexer.{
  Tok, Token, is_valid_login, bot_suffix, is_r, bot, review_req, approve, approve_as, reject,
  short_ready, as_word, semi, newline, punct, prose, user, raw_user, word, plus, minus,
}

-- how often a character occurs
unfoldable pub count_char : ℕ → Text → ℕ
count_char k [] = 0
count_char k (c ∷ cs) = (if c == k then 1 else 0) + count_char k cs

pub count_char-append :
    (k : ℕ) (s t : Text) → count_char k (s ++ t) ≡ count_char k s + count_char k t
unfolding count_char
count_char-append k [] t = omega arith
count_char-append k (c ∷ s) t = omega (arith, count_char-append k s t)

pub count_char-take_while :
    (p : ℕ → Bool) (k : ℕ)
    → ((c : ℕ) → p c ≡ true → c ≢ k)
    → (s : Text) → count_char k (take_while p s).0 ≡ 0
unfolding take_while count_char
count_char-take_while p k h [] = refl
count_char-take_while p k h (c ∷ cs) = elim (Bool-cases (p c)) [
  | inl e ↦ rw e (ground (arith, h c e, count_char-take_while p k h cs))
  | inr e ↦ rw e
]

-- No character of the text is a line feed or a semicolon.
abbrev pub NoBreak : Text → Type 0
NoBreak raw = (count_char 10 raw ≡ 0) × (count_char b';' raw ≡ 0)

-- A break is its own token; every other token holds none.
abbrev pub Covers : Tok → Text → Type 0
Covers newline raw = raw ≡ 10 ∷ []
Covers semi raw = raw ≡ b';' ∷ []
Covers t raw = NoBreak raw

module _ (is_alphanumeric : ℕ → Bool) (me : Text) where
  abbrev Sigil : ℕ → Text → Type 0
  Sigil s raw = (c : ℕ) × (is_r c ≡ true) × (raw ≡ c ∷ s ∷ [])

  -- The text that each kind of token stands for.
  abbrev pub Spells : Tok → Text → Type 0
  Spells newline raw = raw ≡ 10 ∷ []
  Spells semi raw = raw ≡ b';' ∷ []
  Spells bot raw =
      (n : Text) × (raw ≡ b'@' ∷ n)
      × (without_suffix bot_suffix (to_ascii_lowercase n) ≡ me)
      × (is_valid_login me ≡ true)
  Spells (user u) raw = (raw ≡ b'@' ∷ u) × (is_valid_login u ≡ true)
  Spells (raw_user u) raw = (raw ≡ b'@' ∷ u) × (is_valid_login u ≡ false)
  Spells (word w) raw = w ≡ to_ascii_lowercase raw
  Spells as_word raw = eq_ignore_ascii_case raw (codes "as") ≡ true
  Spells (plus v) raw = (raw ≡ b'+' ∷ v) × (v ≢ [])
  Spells (minus v) raw = (raw ≡ b'-' ∷ v) × (v ≢ [])
  Spells review_req raw = Sigil b'?' raw
  Spells approve raw = Sigil b'+' raw
  Spells approve_as raw = Sigil b'=' raw
  Spells reject raw = Sigil b'-' raw
  Spells short_ready raw = (c : ℕ) × (is_r c ≡ true) × (raw ≡ b'?' ∷ c ∷ [])
  Spells punct raw = (any is_alphanumeric raw ≡ false) ⊎ (raw ≡ b'+' ∷ []) ⊎ (raw ≡ b'-' ∷ [])
  Spells prose raw = any is_alphanumeric raw ≡ true

  -- From the offset, the text is cut into tokens and white space, with nothing left over.
  pub data Tiling : ℕ → Text → List Token → Type 0 where
    done : {at : ℕ} → Tiling at [] []
    gap :
        {at : ℕ} (c : ℕ) (cs : Text) {text : Text} {ts : List Token}
        → text ≡ c ∷ cs
        → is_whitespace c ≡ true
        → NoBreak (c ∷ [])
        → Tiling (at + len (c ∷ [])) cs ts
        → Tiling at text ts
    token :
        {at : ℕ} (t : Tok) (raw rest : Text) {text : Text} {ts us : List Token}
        → text ≡ raw ++ rest
        → 0 < len raw
        → Spells t raw
        → Covers t raw
        → us ≡ record { tok = t; start = at; end = at + len raw } ∷ ts
        → Tiling (at + len raw) rest ts
        → Tiling at text us
