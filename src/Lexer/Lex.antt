-- ===== src/Lexer/Lex.antt =====
-- The whole of `lex` in src/commands/lex.rs: what its token stream is, against the text.
use xero_bot.Text.Laws.{len-append, slice_part}
use xero_bot.Prelude.{
  ℕ, ◌+◌, ◌≤◌, ◌<◌, ◌≡◌, refl, List, [], ◌∷◌, Bool, Option, length, arith, ap, All, sym,
  length-append, ◌++◌, zero, append_assoc,
}
use xero_bot.Text.{Text, len, slice}
use xero_bot.Lexer.{
  run, next, lex, bot_key, Bool, Option, length, Tok, suc, push, Token, semi, newline,
}
use xero_bot.Lexer.Tiling.{Tiling, done, gap, token, Spells, Covers, count_char, count_char-append}
use xero_bot.Lexer.Cuts.{Round, blank, cut, next-Round}

-- Spans follow one another from the offset.
abbrev pub Ordered : ℕ → List Token → Type 0
Ordered at [] = Unit
Ordered at (u ∷ us) = (at ≤ u.start) × (u.start < u.end) × Ordered u.end us

abbrev is_newline : Tok → ℕ
is_newline newline = 1
is_newline _ = 0

abbrev is_semi : Tok → ℕ
is_semi semi = 1
is_semi _ = 0

-- how many tokens are line feeds
unfoldable pub newlines : List Token → ℕ
newlines [] = 0
newlines (u ∷ us) = is_newline u.tok + newlines us

-- how many tokens are semicolons
unfoldable pub semicolons : List Token → ℕ
semicolons [] = 0
semicolons (u ∷ us) = is_semi u.tok + semicolons us

Covers-breaks :
    (t : Tok) (raw : Text)
    → Covers t raw
    → (is_newline t ≡ count_char 10 raw) × (is_semi t ≡ count_char b';' raw)
unfolding count_char
Covers-breaks newline raw h = rw h (refl, refl)
Covers-breaks semi raw h = rw h (refl, refl)
Covers-breaks _ raw h = (sym h.0, sym h.1)

length_pos : (s : Text) → 0 < len s → 0 < length s
unfolding len
length_pos [] h = h
length_pos (c ∷ s) h = omega arith

module _ (is_alphanumeric : ℕ → Bool) (me : Text) where
  run_round :
      (fuel at : ℕ) (c : ℕ) (cs : Text) (r : Option Tok × Text × Text)
      → Round is_alphanumeric me (c ∷ cs) r
      → ((rest : Text)
          → length rest ≤ fuel
          → (at' : ℕ) → Tiling is_alphanumeric me at' rest (run is_alphanumeric fuel me at' rest))
      → length cs ≤ fuel
      → Tiling is_alphanumeric me at
          (c ∷ cs)
          (push r.0 at (at + len r.1) (run is_alphanumeric fuel me (at + len r.1) r.2))
  run_round fuel at c cs r (blank d ds e w nb) ih h =
      gap d ds e w nb (ih ds (omega (arith, ap length e)) _)
  run_round fuel at c cs r (cut l k) ih h =
      token l.0 l.1 l.2 (sym k.split) k.nonempty k.spells k.covers refl (
        ih l.2 (omega (arith, ap length k.split, length-append l.1 l.2, length_pos l.1 k.nonempty))
          _)

  pub run-Tiling :
      (fuel at : ℕ) (text : Text)
      → length text ≤ fuel
      → Tiling is_alphanumeric me at text (run is_alphanumeric fuel me at text)
  unfolding run
  run-Tiling fuel at [] h = done
  run-Tiling zero at (c ∷ cs) h = absurd (omega arith)
  run-Tiling (suc fuel) at (c ∷ cs) h =
      run_round fuel at c cs (next is_alphanumeric me c cs) (next-Round is_alphanumeric me c cs)
        (λ rest k at'. run-Tiling fuel at' rest k) (omega arith)

  -- What a token covers, read back from the text, and where it stands.
  pub record Reads (text : Text) (u : Token) : Type 0 where
    pub spells : Spells is_alphanumeric me u.tok (slice text u.start u.end)
    pub covers : Covers u.tok (slice text u.start u.end)
    pub nonempty : u.start < u.end
    pub within : u.end ≤ len text

  Tiling-Reads :
      {at : ℕ} {text : Text} {ts : List Token}
      → Tiling is_alphanumeric me at text ts
      → (before : Text) → at ≡ len before
      → All (Reads (before ++ text)) ts
  Tiling-Reads done before e = tt
  Tiling-Reads {at} {text} (gap c cs e w nb d) before h =
      let ih = Tiling-Reads d (before ++ c ∷ []) (rw (len-append, h)) in
      rw (e, ← append_assoc before (c ∷ []) cs) ih
  Tiling-Reads {at} {text} (token t raw rest e ne sp cv eu d) before h =
      let ih = Tiling-Reads d (before ++ raw) (rw (len-append, h)) in
      let s : slice (before ++ (raw ++ rest)) at (at + len raw) ≡ raw =
        rw h (slice_part before raw rest) in
      rw (e, eu)
        (
          record {
            spells = rw s sp;
            covers = rw s cv;
            nonempty = omega arith;
            within = omega (arith, h, len-append before (raw ++ rest), len-append raw rest);
          },
          (rw (append_assoc before raw rest) at ih),
        )

  Tiling-Ordered :
      {at : ℕ} {text : Text} {ts : List Token}
      → Tiling is_alphanumeric me at text ts
      → (from : ℕ) → from ≤ at
      → Ordered from ts
  Tiling-Ordered done from h = tt
  Tiling-Ordered (gap c cs e w nb d) from h = Tiling-Ordered d from (omega arith)
  Tiling-Ordered {at} (token t raw rest e ne sp cv eu d) from h =
      rw eu (h, omega arith, Tiling-Ordered d (at + len raw) (omega arith))

  Tiling-breaks :
      {at : ℕ} {text : Text} {ts : List Token}
      → Tiling is_alphanumeric me at text ts
      → (newlines ts ≡ count_char 10 text) × (semicolons ts ≡ count_char b';' text)
  unfolding newlines semicolons count_char
  Tiling-breaks done = (refl, refl)
  Tiling-breaks (gap c cs e w nb d) = let ih = Tiling-breaks d in rw e (ground arith)
  Tiling-breaks (token t raw rest e ne sp cv eu d) =
      let ih = Tiling-breaks d in
      let r = Covers-breaks t raw cv in
      rw (e, eu)
        (
          omega (arith, count_char-append 10 raw rest),
          omega (arith, count_char-append b';' raw rest),
        )

-- For every table of alphanumerics, bot name and comment, the tokens tile the comment: it is cut
-- from its first character to its last into tokens, each spelled as its kind says, and white space.
pub lex-Tiling :
    (is_alphanumeric : ℕ → Bool) (bot_name text : Text)
    → Tiling is_alphanumeric (bot_key bot_name) 0 text (lex is_alphanumeric bot_name text)
unfolding lex
lex-Tiling is_alphanumeric bot_name text =
    run-Tiling is_alphanumeric (bot_key bot_name) (length text) 0 text (omega arith)

-- Each token's span is not empty, ends within the comment's bytes, and the slice of the comment at
-- that span is spelled as the token's kind and payload say; only line feeds and semicolons hold one.
pub lex-Reads :
    (is_alphanumeric : ℕ → Bool) (bot_name text : Text)
    → All (Reads is_alphanumeric (bot_key bot_name) text) (lex is_alphanumeric bot_name text)
unfolding len
lex-Reads is_alphanumeric bot_name text =
    Tiling-Reads is_alphanumeric (bot_key bot_name) (lex-Tiling is_alphanumeric bot_name text) []
      refl

-- The spans of the tokens follow one another without overlap.
pub lex-Ordered :
    (is_alphanumeric : ℕ → Bool) (bot_name text : Text)
    → Ordered 0 (lex is_alphanumeric bot_name text)
lex-Ordered is_alphanumeric bot_name text =
    Tiling-Ordered is_alphanumeric (bot_key bot_name) (lex-Tiling is_alphanumeric bot_name text) 0
      (omega arith)

-- There are as many line feed tokens as line feeds in the comment, and as many semicolon tokens as
-- semicolons: no separator of commands is lost inside another token.
pub lex_breaks :
    (is_alphanumeric : ℕ → Bool) (bot_name text : Text)
    → (newlines (lex is_alphanumeric bot_name text) ≡ count_char 10 text)
      × (semicolons (lex is_alphanumeric bot_name text) ≡ count_char b';' text)
lex_breaks is_alphanumeric bot_name text =
    Tiling-breaks is_alphanumeric (bot_key bot_name) (lex-Tiling is_alphanumeric bot_name text)
