-- ===== src/Lexer/Tests.antt =====
-- Runs of the lexer on the inputs of the tests of src/commands/lex.rs.
use xero_bot.Lexer.{
  lex, bot_key, List, Bool, codes, leb, Tok, approve, review_req, word, user, bot, raw_user, semi,
  reject, [], minus, prose, short_ready, as_word,
}
use xero_bot.Lexer.Lex.{
  Ordered, Reads, newlines, lex-Reads, lex-Ordered, lex-Tiling, semicolons, lex_breaks,
}
use xero_bot.Text.{Text, codes}
use xero_bot.Lexer.Tiling.{Tiling, count_char}
use xero_bot.Prelude.{ℕ, All, Bool, List, ◌≡◌, ◌++◌, leb, ◌∷◌, map, ◌&&◌, [], refl}

abbrev pub ascii_only : ℕ → Bool
ascii_only c = leb 0x3400 c && leb c 0x9fff

abbrev kinds : Text → List Tok
kinds text = map (λ u. u.tok) (lex ascii_only (codes "xero-review") text)

bot_suffix_is_part_of_the_mention :
    kinds (codes "@XERO-REVIEW[Bot] ping") ≡ bot ∷ word (codes "ping") ∷ []
unfolding lex
bot_suffix_is_part_of_the_mention = refl

mention_prefix_is_not_the_bot :
    kinds (codes "@xero-reviewer ping") ≡ user (codes "xero-reviewer") ∷ word (codes "ping") ∷ []
unfolding lex
mention_prefix_is_not_the_bot = refl

sigils_are_single_tokens :
    kinds (codes "r? r+ r- ?r") ≡ review_req ∷ approve ∷ reject ∷ short_ready ∷ []
unfolding lex
sigils_are_single_tokens = refl

r_hyphen_word_is_not_reject :
    kinds (codes "r-fix -wip") ≡ word (codes "r-fix") ∷ minus (codes "wip") ∷ []
unfolding lex
r_hyphen_word_is_not_reject = refl

invalid_logins_are_kept : kinds (codes "@-bad 这个") ≡ raw_user (codes "-bad") ∷ prose ∷ []
unfolding lex
invalid_logins_are_kept = refl

rollup_takes_its_value :
    kinds (codes "r+ ROLLUP=never; as")
    ≡ approve ∷ word (codes "rollup=never") ∷ semi ∷ as_word ∷ []
unfolding lex
rollup_takes_its_value = refl

abbrev comment : Text
comment = codes "@xero-review label +bug" ++ 10 ∷ codes "r? @alice"

lex-Tiling_example :
    Tiling ascii_only
      (bot_key (codes "xero-review"))
      0
      comment
      (lex ascii_only (codes "xero-review") comment)
lex-Tiling_example = lex-Tiling ascii_only (codes "xero-review") comment

lex-Reads_example :
    All
      (Reads ascii_only (bot_key (codes "xero-review")) comment)
      (lex ascii_only (codes "xero-review") comment)
lex-Reads_example = lex-Reads ascii_only (codes "xero-review") comment

lex-Ordered_example : Ordered 0 (lex ascii_only (codes "xero-review") comment)
lex-Ordered_example = lex-Ordered ascii_only (codes "xero-review") comment

lex_breaks_example :
    (newlines (lex ascii_only (codes "xero-review") comment) ≡ 1)
    × (semicolons (lex ascii_only (codes "xero-review") comment) ≡ 0)
unfolding count_char
lex_breaks_example = lex_breaks ascii_only (codes "xero-review") comment
