-- ===== src/Pipeline.antt =====
-- `parse_commands` of src/commands.rs, from a comment to its candidates.
pub mod Governance
pub mod Tests
use xero_bot.Parser.State.{
  new, peek, span, advance, segment_start, addressed_after, at_boundary, skip_to_boundary,
  skip_tail, skip_fillers, skip_filler, emit, diagnose, incomplete, missing, extra,
}
use xero_bot.Parser.Args.{
  user_arg_at, user_arg, ends_sentence, skip_closing, close, end_arguments, add_user, end_users,
  touches, after_user, with_user, user_rounds, user_list, emit_user, single_user, bad_label,
  label_round, label_rounds, label_emit, label_end, label_args,
}
use xero_bot.Parser.Verbs.{
  skip_loose, compound_from, ready_reviewer, emit_cc, ready_cc, ready_end, short_ready_command,
  request_user, bare_review_request, symbolic_round, symbolic_rounds, scan_symbolic_tail,
  reads_rollup, rollup_of, approve_command, approve_end, approve_target, approve_from, approve_args,
}
use xero_bot.Parser.Tail.{
  nullary_of, nullary, queue_command, queue_verb, argument_follows, nullary_tail, nullary_verb,
  unknown_word, argument_verb, list_verb, other_verb, word_verb, reject_args, tail_at, lead_in,
  verb_tail,
}
use xero_bot.Parser.Program.{
  mention_rounds, mention_command, bare_approval, semicolon, other_entry, approval_entry, entry,
  must_advance, rounds, program, finish, parse,
}
use xero_bot.Command.{
  aliases, name, has_alias, find_id, from_name, command_id, id_requires_pr, requires_pr,
}
-- `char::is_alphanumeric` and `str::to_lowercase` are the standard library's Unicode tables.
use xero_bot.Lexer.{lex}
use xero_bot.Parser.Program.{Parsed, parse}
use xero_bot.Text.{Text, text_eq}
use xero_bot.Mask.{mask}
use xero_bot.Prelude.{ℕ, Bool}

module _ (is_alphanumeric : ℕ → Bool) where
  unfoldable pub parse_commands : Text → Text → Parsed
  unfolding mask lex new peek span advance segment_start addressed_after at_boundary
      skip_to_boundary skip_tail skip_fillers skip_filler emit diagnose incomplete missing extra
      user_arg_at user_arg ends_sentence skip_closing close end_arguments add_user end_users touches
      after_user with_user user_rounds user_list emit_user single_user bad_label label_round
      label_rounds label_emit label_end label_args skip_loose compound_from ready_reviewer emit_cc
      ready_cc ready_end short_ready_command request_user bare_review_request symbolic_round
      symbolic_rounds scan_symbolic_tail reads_rollup rollup_of approve_command approve_end
      approve_target approve_from approve_args nullary_of nullary queue_command queue_verb
      argument_follows nullary_tail nullary_verb unknown_word argument_verb list_verb other_verb
      word_verb reject_args tail_at lead_in verb_tail mention_rounds mention_command bare_approval
      semicolon other_entry approval_entry entry must_advance rounds program finish parse aliases
      name has_alias find_id from_name command_id id_requires_pr requires_pr
  parse_commands bot_name text =
      let masked = mask text in
      parse (lex is_alphanumeric bot_name masked) masked (text_eq masked text)
