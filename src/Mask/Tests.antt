-- ===== src/Mask/Tests.antt =====
-- Runs of the masker on the inputs of the tests of src/commands/mask.rs.
use xero_bot.Mask.Fuel.{inline_loops_end, closing_run_or, mask_inline_or}
use xero_bot.Mask.Hidden.{mask-Hides, Hides, Absent, without_code}
use xero_bot.Mask.Masked.{len-mask, mask-Blanking}
use xero_bot.Mask.Blanking.{Blanking}
use xero_bot.Prelude.{◌≡◌, ◌++◌, refl, ◌∷◌, length, ◌+◌, some, []}
use xero_bot.Text.{codes, Text, len}
use xero_bot.Mask.{
  mask, codes, ◌++◌, Text, closing_run, length, comment_open, inline_code, some, [],
}

inline_code_is_masked : mask (codes "a `b` c") ≡ codes "a     c"
unfolding mask
inline_code_is_masked = refl

unmatched_backtick_is_literal : mask (codes "a ` b") ≡ codes "a ` b"
unfolding mask
unmatched_backtick_is_literal = refl

quotation_is_masked :
    mask (codes "> @bot ping" ++ 10 ∷ codes "ok") ≡ codes "           " ++ 10 ∷ codes "ok"
unfolding mask
quotation_is_masked = refl

fence_is_masked :
    mask (codes "```" ++ 10 ∷ codes "r?" ++ 10 ∷ codes "```" ++ 10 ∷ codes "x")
    ≡ codes "   " ++ 10 ∷ codes "  " ++ 10 ∷ codes "   " ++ 10 ∷ codes "x"
unfolding mask
fence_is_masked = refl

comment_is_masked : mask (codes "a<!--b-->c") ≡ codes "a        c"
unfolding mask
comment_is_masked = refl

multi_backtick_spans_need_equal_runs : mask (codes "``a`b`` c") ≡ codes "        c"
unfolding mask
multi_backtick_spans_need_equal_runs = refl

abbrev comment : Text
comment = codes "> @bot ping `r+`" ++ 10 ∷ codes "ok <!-- r? @a"

mask-Blanking_example : Blanking comment (mask comment)
mask-Blanking_example = mask-Blanking comment

len-mask_example : len (mask comment) ≡ len comment
len-mask_example = len-mask comment

mask-Hides_example :
    Hides (without_code comment) (mask comment) × Absent comment_open (mask comment)
mask-Hides_example = mask-Hides comment

a_comment_is_hidden_whole : mask (codes "a <!-- r? @b --> c") ≡ codes "a                c"
unfolding mask
a_comment_is_hidden_whole = refl

inline_loops_end_example :
    (closing_run_or (some ([], [])) (length comment + 1 + 3) 1 comment
      ≡ closing_run (length comment + 1) 1 comment)
    × (mask_inline_or (λ _. []) (length comment + 1 + 3) comment ≡ inline_code comment)
inline_loops_end_example = inline_loops_end (some ([], [])) (λ _. []) 3 1 comment
