-- ===== src/Pipeline/Governance.antt =====
-- What `parse` of src/commands/parse.rs and `parse_commands` of src/commands.rs let through.
use xero_bot.Text.Laws.{text_eq_iff}
use xero_bot.Parser.Scan.{NeedsNoMention, scan-NeedsNoMention}
use xero_bot.Parser.State.{new}
use xero_bot.Mask.{mask}
use xero_bot.Text.{Text, text_eq}
use xero_bot.Pipeline.{parse_commands, mask, new, text_eq}
use xero_bot.Lexer.{Token, lex}
use xero_bot.Parser.Args.{is_empty}
use xero_bot.Prelude.{
  List, ℕ, Bool, ◌≡◌, true, ◌⊎◌, ◌≢◌, [], All, ◌∷◌, refl, Bool-cases, ◌&&◌, inl, and-true_inv, inr,
}
use xero_bot.Parser.Program.{parse, finish, program}

-- All of the comment was read as commands, and nothing in it was complained about.
abbrev pub IsBlock : List Token → Text → Type 0
IsBlock toks text =
    ((program (new toks text true)).complete ≡ true)
    × ((program (new toks text true)).diagnostics ≡ [])

is_empty→nil {ℓ} : {A : Type ℓ} (xs : List A) → is_empty xs ≡ true → xs ≡ []
is_empty→nil [] h = refl
is_empty→nil (x ∷ xs) h = cc

-- Either the comment is unmasked and its strict reading takes all tokens as commands and has no
-- diagnostic, or each candidate that no bot mention governs is a ready, review-request or cc
-- shortcut written as a symbol.
pub parse-NeedsNoMention :
    (toks : List Token) (text : Text) (unmasked : Bool)
    → ((unmasked ≡ true) × IsBlock toks text)
      ⊎ All NeedsNoMention (parse toks text unmasked).commands
unfolding parse finish
parse-NeedsNoMention toks text unmasked =
    let block = program (new toks text true) in
    elim (Bool-cases (unmasked && (block.complete && is_empty block.diagnostics))) [
      | inl e ↦
          let whole = and-true_inv unmasked (block.complete && is_empty block.diagnostics) e in
          let read = and-true_inv block.complete (is_empty block.diagnostics) whole.1 in
          inl (whole.0, (read.0, is_empty→nil block.diagnostics read.1))
      | inr e ↦ inr (rw e (scan-NeedsNoMention toks text))
    ]

module _ (is_alphanumeric : ℕ → Bool) where
  -- If masking changes the comment, then each candidate that no bot mention governs is a ready,
  -- review-request or cc shortcut written as a symbol.
  pub parse_commands-NeedsNoMention :
      (bot_name text : Text)
      → mask text ≢ text
      → All NeedsNoMention (parse_commands is_alphanumeric bot_name text).commands
  unfolding parse_commands
  parse_commands-NeedsNoMention bot_name text h =
      elim (parse-NeedsNoMention (lex is_alphanumeric bot_name (mask text)) (mask text)
        (text_eq (mask text) text)) [ inl e ↦ absurd (h ((text_eq_iff _ _).0 e.0)) | inr k ↦ k ]
