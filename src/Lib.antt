-- ===== src/Lib.antt =====
-- xero-bot: a bot that reads commands in the comments of GitHub issues and pull requests, gates them
-- by the repository's policy and acts on them. Modelled here is the language of the comments, from
-- the text of a comment to the commands that are left to run; the path globs of the rules that label
-- a pull request by its files; the database of the operations on GitHub; and the rollup queue, from a
-- command to the choice and the end of a batch.
--
-- The parts, in the order in which a comment passes them:
--   Text       strings, as lists of Unicode code points; an offset counts bytes of the UTF-8 form.
--   Mask       src/commands/mask.rs: `mask` is `mask_noncommand_regions`.
--   Lexer      src/commands/lex.rs: `lex`, and `lex_at`, `lex_word` and the others as there.
--   Command    src/config/repository.rs and src/commands.rs: `CommandId` and `Command`.
--   Suggest    src/commands/diag.rs: `suggest` and `edit_distance`.
--   Parser     src/commands/parse.rs: `parse`, in child modules that follow its calls. The position in
--              the token slice is a zipper: `past` (reversed) and `rest`.
--   Pipeline   src/commands.rs: `parse_commands`, which masks, lexes and parses.
--   Policy     src/config/repository.rs: `Comments::gate`, asked for each candidate.
--   Resolve    src/commands/resolve.rs: `resolve` on the candidates that passed the gate.
--   Glob       src/path_triggers.rs: `valid_glob`, `compile_glob`, `segment_matches`, `path_matches`,
--              and in Rules `matched_rules_with_evidence`; a JSON file entry is three optional texts.
--   Store      src/trigger_state/store.rs: the database of trigger states, a list of rows for each
--              table. Table has the SQL statements; Inbox, Operations, Reserve, Claims, Leases, Plans,
--              Admin, Sessions and Ledger the methods of `Store` under their names (prepare_notification and
--              restore_notification_ledger are src/trigger_state/notification_store.rs's); Calls a value
--              for each call, and `apply_all`.
--              Lifecycle is the abstract view of an operation.
--   Rollup     src/rollup/mod.rs: the queue's data; in Engine, src/rollup/engine.rs: `github_verdict`,
--              `select_group`, and `finish` as `finish_batch`; in Ingress, `apply` of
--              src/rollup/ingress.rs as `apply_command`.
--
-- A database call runs in one transaction under a lock: it takes the tables and returns them, or an
-- error, which leaves them. Rows whose JSON cannot be read are not modelled. A test for one changed row
-- is a count of the rows that the statement matches. Times and GitHub's IDs are natural numbers.
--
-- Parameters. `char::is_alphanumeric` and `str::to_lowercase` are the standard library's Unicode
-- tables, `glob::Pattern` is another package's, and `Host` of Store/Calls has serde_json's steps and
-- `redact::scrub`; `digits` of Rollup/Ingress and of Store/Reserve prints a number. The
-- theorems hold for all of them.
--
-- Fuel. The lexer has a round for each character, `program` one for each token, and the inner loops
-- of the parser one more than the tokens that are left: every round takes a character or a token.
-- The loops of the masker have a round for each character.
--
-- Not modelled: the messages for people, the TOML documents, the opening and the migrations of the
-- database, its lists for diagnostics, frozen plans and the readiness test of a ledger, the git and
-- network steps of the rollup queue, the merge queue, the Forgejo bridge, the idle workflows, the review agent, and the
-- GitHub calls of the handlers.
pub mod Prelude
pub mod Text
pub mod Command
pub mod Policy
pub mod Lexer
pub mod Mask
pub mod Suggest
pub mod Parser
pub mod Resolve
pub mod Pipeline
pub mod Glob
pub mod Store
pub mod Rollup
