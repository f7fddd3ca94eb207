-- ===== src/Parser/Tests.antt =====
-- The parser on the tokens of a comment.
use xero_bot.Parser.Rounds.{outer_loops_end, user_rounds_or, mention_rounds_or}
use xero_bot.Parser.Fuel.{inner_loops_end}
use xero_bot.Parser.Verbs.{scan_symbolic_tail}
use xero_bot.Parser.Args.{user_rounds, label_rounds}
use xero_bot.Parser.Progress.{program_reads_all}
use xero_bot.Parser.TailAdds.{verb_tail-Extends}
use xero_bot.Parser.Tail.{verb_tail}
use xero_bot.Lexer.Tests.{ascii_only}
use xero_bot.Parser.State.{new, at_boundary}
use xero_bot.Lexer.{Token, lex}
use xero_bot.Parser.Adds.{Governed}
use xero_bot.Parser.Program.{program, mention_rounds}
use xero_bot.Text.{Text, codes}
use xero_bot.Prelude.{List, length, true, false, ◌≡◌, ◌+◌, [], none}
use xero_bot.Parser.Extends.{Extends}

abbrev comment : Text
comment = codes "r? @alice; @bot approve"

abbrev tokens : List Token
tokens = lex ascii_only (codes "bot") comment

program_reads_all_example : length (program (new tokens comment false)).rest ≡ 0
program_reads_all_example = program_reads_all tokens comment false

verb_tail-Extends_example :
    Extends Governed (new tokens comment true) (verb_tail false (new tokens comment true))
verb_tail-Extends_example = verb_tail-Extends false (new tokens comment true)

inner_loops_end_example :
    (at_boundary
        (label_rounds
          (length (new tokens comment false).rest + 1)
          (record { add = []; remove = []; valid = true })
          (new tokens comment false)).1
      ≡ true)
    × (at_boundary (scan_symbolic_tail (new tokens comment false)) ≡ true)
inner_loops_end_example =
    inner_loops_end (record { add = []; remove = []; valid = true }) (new tokens comment false)

outer_loops_end_example :
    (user_rounds_or
        (λ _ q. (none, q))
        (length (new tokens comment true).rest + 1 + 5)
        []
        (new tokens comment true)
      ≡ user_rounds (length (new tokens comment true).rest + 1) [] (new tokens comment true))
    × (mention_rounds_or
          (λ _ _. new [] [] false)
          (length (new tokens comment true).rest + 1 + 5)
          true
          (new tokens comment true)
        ≡ mention_rounds (length (new tokens comment true).rest + 1) true (new tokens comment true))
outer_loops_end_example =
    outer_loops_end (λ _ q. (none, q)) (λ _ _. new [] [] false) 5 [] true (new tokens comment true)
