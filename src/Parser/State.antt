-- ===== src/Parser/State.antt =====
-- The parser's state and its small steps (src/commands/parse.rs, src/commands/diag.rs).
use xero_bot.Command.{Command}
use xero_bot.Lexer.{Tok, Token, punct, prose, bot, semi, newline}
use xero_bot.Prelude.{
  ◌++◌, Bool, List, ℕ, Option, false, ◌∷◌, none, true, [], some, ◌||◌, if◌then◌else◌,
}
use xero_bot.Text.{Text}

pub record Span : Type 0 where
  pub from : ℕ
  pub to : ℕ

pub data SourceForm : Type 0 where
  explicit_mention bare_word symbol : SourceForm

pub record ParsedCommand : Type 0 where
  pub command : Command
  pub span : Span
  pub source : SourceForm
  pub mention_span : Option Span
  pub compound_span : Option Span

pub data Expected : Type 0 where
  user_expected users_expected labels_expected : Expected

pub data Diagnostic : Type 0 where
  unknown_verb : Text → Option Text → Span → Diagnostic
  missing_argument : Text → Expected → Span → Diagnostic
  ignored_arguments : Text → Span → Diagnostic
  extra_arguments : Text → Span → Diagnostic
  invalid_login : Text → Span → Diagnostic
  invalid_label : Text → Span → Diagnostic
  conflicting_status : Text → List Text → Diagnostic
  self_request_ignored : Span → Diagnostic
  duplicate_command : Text → ℕ → Diagnostic

pub record Parser : Type 0 where
  pub past : List Token
  pub rest : List Token
  pub text : Text
  pub strict : Bool
  pub complete : Bool
  pub mention : Option Span
  pub commands : List ParsedCommand
  pub diagnostics : List Diagnostic

-- `Parser::new`
unfoldable pub new : List Token → Text → Bool → Parser
new toks text strict = record {
  past = [];
  rest = toks;
  text = text;
  strict = strict;
  complete = true;
  mention = none;
  commands = [];
  diagnostics = [];
}

abbrev pub token_span : Token → Span
token_span u = record { from = u.start; to = u.end }

abbrev pub head_tok : List Token → Option Tok
head_tok [] = none
head_tok (u ∷ us) = some u.tok

unfoldable pub peek : Parser → Option Tok
peek p = head_tok p.rest

abbrev current_span : List Token → List Token → Span
current_span past (u ∷ us) = token_span u
current_span (u ∷ us) [] = token_span u
current_span [] [] = record { from = 0; to = 0 }

-- `Parser::span`: the current token's, or at the end the last one's
unfoldable pub span : Parser → Span
span p = current_span p.past p.rest

abbrev pub last_end : List Token → ℕ
last_end [] = 0
last_end (u ∷ us) = u.end

abbrev pub moved : Parser → List Token → Parser
moved p [] = p
moved p (u ∷ us) = record p { past = u ∷ p.past; rest = us }

-- `self.pos += 1`
unfoldable pub advance : Parser → Parser
advance p = moved p p.rest

abbrev pub starts_segment : List Token → Bool
starts_segment [] = true
starts_segment (u ∷ us) = elim u.tok [ newline ↦ true | semi ↦ true | _ ↦ false ]

unfoldable pub segment_start : Parser → Bool
segment_start p = starts_segment p.past

-- `addressed_at` on the tokens before the mention, the last one first
unfoldable pub addressed_after : List Token → Bool
addressed_after [] = true
addressed_after (u ∷ us) = elim u.tok [ newline ↦ true | punct ↦ addressed_after us | _ ↦ false ]

abbrev pub is_boundary : Option Tok → Bool
is_boundary none = true
is_boundary (some bot) = true
is_boundary (some semi) = true
is_boundary (some newline) = true
is_boundary (some _) = false

unfoldable pub at_boundary : Parser → Bool
at_boundary p = is_boundary (peek p)

-- The loops that only move read the tokens themselves: what is passed, and what is left.
unfoldable pub skip_to_boundary : List Token → List Token → List Token × List Token
skip_to_boundary past [] = (past, [])
skip_to_boundary past (u ∷ us) =
    let moved = skip_to_boundary (u ∷ past) us in
    if is_boundary (some u.tok) then (past, u ∷ us) else moved

unfoldable pub skip_tail : Parser → Parser
skip_tail p = let r = skip_to_boundary p.past p.rest in record p { past = r.0; rest = r.1 }

abbrev pub is_filler : Tok → Bool
is_filler punct = true
is_filler prose = true
is_filler _ = false

abbrev pub is_prose : Tok → Bool
is_prose prose = true
is_prose _ = false

unfoldable pub skip_fillers : List Token → List Token → Bool → List Token × List Token × Bool
skip_fillers past [] seen = (past, [], seen)
skip_fillers past (u ∷ us) seen =
    let moved = skip_fillers (u ∷ past) us (seen || is_prose u.tok) in
    if is_filler u.tok then moved else (past, u ∷ us, seen)

-- `skip_filler`, with whether prose occurred
unfoldable pub skip_filler : Parser → Parser × Bool
skip_filler p =
    let r = skip_fillers p.past p.rest false in (record p { past = r.0; rest = r.1 }, r.2)

-- `toks[pos.saturating_sub(1)].span.end`: at the very start the first token's
abbrev pub emit_end : List Token → List Token → ℕ
emit_end (u ∷ us) rest = u.end
emit_end [] (u ∷ us) = u.end
emit_end [] [] = 0

-- `emit`: the candidate ends where the last token passed ends
unfoldable pub emit : Command → ℕ → SourceForm → Parser → Parser
emit command start source p = record p {
  commands =
      p.commands
      ++ (record {
        command = command;
        span = record { from = start; to = emit_end p.past p.rest };
        source = source;
        mention_span = p.mention;
        compound_span = none;
      })
        ∷ [];
}

unfoldable pub diagnose : Diagnostic → Parser → Parser
diagnose d p = record p { diagnostics = p.diagnostics ++ d ∷ [] }

unfoldable pub incomplete : Parser → Parser
incomplete p = record p { complete = false }

unfoldable pub missing : Text → Expected → Parser → Parser
missing verb expected p = diagnose (missing_argument verb expected (span p)) (incomplete p)

unfoldable pub extra : Text → Parser → Parser
extra verb p = skip_tail (diagnose (extra_arguments verb (span p)) (incomplete p))
