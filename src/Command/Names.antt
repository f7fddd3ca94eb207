-- ===== src/Command/Names.antt =====
-- The spellings of the commands (src/config/repository.rs) name each command once.
use xero_bot.Text.Laws.{text_eq→eq}
use xero_bot.Prelude.{
  List, All, Bool, ◌≡◌, some, true, ◌↔◌, any, ◌∷◌, arith, Bool-cases, [], inl, subst, inr, refl,
}
use xero_bot.Text.{Text, text_eq}
use xero_bot.Command.{
  aliases, find_id, CommandId, from_name, List, Bool, some, claim, any, true, ◌∷◌, has_alias,
  unclaim, text_eq, cc_id, all_ids, request_review, ready, approve, reject, review, codeql, label,
  assign, author, blocked, ping, help, queue, rollup, try, retry,
}

-- every spelling of a command is looked up as that command
alias_found : (id : CommandId) → All (λ a. from_name a ≡ some id) (aliases id)
unfolding aliases from_name
alias_found claim = (refl, (refl, tt))
alias_found unclaim = (refl, (refl, (refl, (refl, tt))))
alias_found cc_id = (refl, tt)
alias_found request_review = (refl, tt)
alias_found ready = (refl, (refl, (refl, tt)))
alias_found approve = (refl, (refl, tt))
alias_found reject = (refl, tt)
alias_found review = (refl, tt)
alias_found codeql = (refl, tt)
alias_found label = (refl, (refl, tt))
alias_found assign = (refl, tt)
alias_found author = (refl, tt)
alias_found blocked = (refl, tt)
alias_found ping = (refl, tt)
alias_found help = (refl, (refl, tt))
alias_found queue = (refl, tt)
alias_found rollup = (refl, (refl, (refl, (refl, tt))))
alias_found try = (refl, tt)
alias_found retry = (refl, tt)

found_of_any :
    (w : Text) (id : CommandId) (names : List Text)
    → All (λ a. from_name a ≡ some id) names
    → any (λ a. text_eq a w) names ≡ true
    → from_name w ≡ some id
found_of_any w id [] h e = cc
found_of_any w id (a ∷ names) h e = elim (Bool-cases (text_eq a w)) [
  | inl same ↦ subst (λ t. from_name t ≡ some id) (text_eq→eq a w same) h.0
  | inr other ↦ found_of_any w id names h.1 (rw other at e)
]

find_id_sound :
    (p : CommandId → Bool) (ids : List CommandId) (id : CommandId)
    → find_id p ids ≡ some id
    → p id ≡ true
unfolding find_id
find_id_sound p [] id h = cc
find_id_sound p (i ∷ ids) id h = ground (arith, find_id_sound p ids id)

-- A word is looked up as a command exactly when it is one of the command's spellings: no spelling
-- names two commands.
pub from_name_iff : (w : Text) (id : CommandId) → (from_name w ≡ some id) ↔ (has_alias w id ≡ true)
from_name_iff w id = (
  λ h. find_id_sound (has_alias w) all_ids id (unfold from_name in h),
  λ h. found_of_any w id (aliases id) (alias_found id) (unfold has_alias in h),
)
