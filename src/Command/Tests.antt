-- ===== src/Command/Tests.antt =====
-- Spellings of the command vocabulary.
use xero_bot.Command.Names.{from_name_iff}
use xero_bot.Prelude.{◌≡◌, some, ◌↔◌, refl, true}
use xero_bot.Text.{codes, text_eq}
use xero_bot.Command.{
  from_name, find_id, codes, has_alias, some, aliases, approve, text_eq, unclaim, true,
}

release_assignment_is_unclaim : from_name (codes "release-assignment") ≡ some unclaim
unfolding from_name find_id has_alias aliases text_eq
release_assignment_is_unclaim = refl

from_name_iff_example :
    (from_name (codes "r+") ≡ some approve) ↔ (has_alias (codes "r+") approve ≡ true)
from_name_iff_example = from_name_iff (codes "r+") approve
