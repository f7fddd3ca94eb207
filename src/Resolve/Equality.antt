-- ===== src/Resolve/Equality.antt =====
-- Each command equals itself (the derived `PartialEq` of src/commands.rs).
use xero_bot.Text.Laws.{text_eq_refl}
use xero_bot.Text.{Text}
use xero_bot.Command.{Command, cc_users, approve_rollup}
use xero_bot.Prelude.{Option, Bool, List, ◌≡◌, true, some, ◌∷◌, false, none, refl, []}
use xero_bot.Resolve.{texts_eq, command_eq, Command, bool_eq, Text, target_eq}

texts_eq_refl : (s : List Text) → texts_eq s s ≡ true
unfolding texts_eq
texts_eq_refl [] = refl
texts_eq_refl (a ∷ s) = rw (text_eq_refl a) (texts_eq_refl s)

target_eq_refl : (o : Option Text) → target_eq o o ≡ true
target_eq_refl none = refl
target_eq_refl (some a) = text_eq_refl a

bool_eq_refl : (b : Bool) → bool_eq b b ≡ true
bool_eq_refl true = refl
bool_eq_refl false = refl

pub command_eq_refl : (c : Command) → command_eq c c ≡ true
unfolding command_eq
command_eq_refl Command.ping = refl
command_eq_refl Command.help = refl
command_eq_refl Command.review = refl
command_eq_refl Command.ready = refl
command_eq_refl Command.author = refl
command_eq_refl Command.blocked = refl
command_eq_refl Command.claim = refl
command_eq_refl Command.unclaim = refl
command_eq_refl Command.try = refl
command_eq_refl Command.retry = refl
command_eq_refl Command.reject = refl
command_eq_refl Command.codeql = refl
command_eq_refl Command.queue = refl
command_eq_refl (Command.request_review a) = text_eq_refl a
command_eq_refl (cc_users a) = texts_eq_refl a
command_eq_refl (Command.label a r) = rw (texts_eq_refl a) (texts_eq_refl r)
command_eq_refl (Command.assign a) = text_eq_refl a
command_eq_refl (Command.approve a) = target_eq_refl a
command_eq_refl (approve_rollup a e) = rw (target_eq_refl a) (bool_eq_refl e)
command_eq_refl (Command.rollup a) = bool_eq_refl a
