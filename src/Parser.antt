-- ===== src/Parser.antt =====
-- src/commands/parse.rs: tokens to command candidates. The token at `pos` is the head of `rest`, and
-- `past` holds the tokens before it, the last one first: `toks[pos - 1]` is the head of `past`, and
-- `pos += 1` moves a token over. The steps are in the child modules, in the order of their calls.
pub mod State
pub mod Args
pub mod Verbs
pub mod Tail
pub mod Program
pub mod Moves
pub mod Extends
pub mod Adds
pub mod Shortcuts
pub mod Governed
pub mod TailAdds
pub mod Scan
pub mod Progress
pub mod Fuel
pub mod Rounds
pub mod Tests
