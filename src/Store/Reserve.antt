-- ===== src/Store/Reserve.antt =====
-- The reserved recipients of src/trigger_state/store.rs: the checks of a scope, and the loop over the
-- logins of a claim.
use xero_bot.Text.{Text, to_ascii_lowercase, text_eq}
use xero_bot.Prelude.{
  List, ℕ, Bool, Option, false, ◌&&◌, if◌then◌else◌, ◌∷◌, [], ◌==◌, not, map, ◌-◌, true, ◌++◌, any,
  ◌||◌,
}
use xero_bot.Store.Table.{update_where, delete_where}
use xero_bot.Lexer.{is_valid_login}
use xero_bot.Text.Order.{sort_texts, dedup}
use xero_bot.Store.Operations.{belongs_to}
use xero_bot.Store.{◌>>◌, EventContext, State, Answer, Recipient, ok, guard, bad_scope, bad_login}

-- The JSON steps on a request and on a receipt, which are serde_json's: a field that is set (the
-- suppressed recipients, the body of the comment, the labels) or read (of the labels those that are
-- strings), and `runtime::receipt`, which scrubs; the empty object, and the text of the array that is
-- the key of a restored ledger. `lower` is `str::to_lowercase` and `digits` is `to_string` on a time.
pub record Requests (Value : Type 0) : Type 0 where
  pub with_suppressed : Value → List Text → Value
  pub with_body : Value → Text → Value
  pub route : Value → Option Text
  pub has_assignees : Value → Bool
  pub receipt : Value → Value
  pub labels : Value → Option (List Text)
  pub with_labels : Value → List Text → Value
  pub lower : Text → Text
  pub no_fields : Value
  pub restored_key : ℕ → ℕ → ℕ → Text
  pub digits : ℕ → Text

abbrev pub same_scope : EventContext → EventContext → Bool
same_scope old ctx =
    old.installation_id == ctx.installation_id
    && (old.repository_id == ctx.repository_id && old.thread_id == ctx.thread_id)

abbrev pub in_scope : ℕ → ℕ → ℕ → Recipient → Bool
in_scope installation repository pr r =
    r.installation == installation && (r.repository == repository && r.pr == pr)

abbrev pub of_context : EventContext → Recipient → Bool
of_context ctx r = in_scope ctx.installation_id ctx.repository_id ctx.thread_id r

abbrev pub is_positive : ℕ → Bool
is_positive n = not (n == 0)

abbrev pub is_positive_scope : EventContext → Bool
is_positive_scope ctx =
    is_positive ctx.installation_id && (is_positive ctx.repository_id && is_positive ctx.thread_id)

-- `recipient_key`, of which the callers here use the checks
unfoldable pub check_recipient : ℕ → ℕ → ℕ → Text → Answer (Unit {0})
unfolding is_valid_login
check_recipient installation repository pr login = do
  guard (is_positive installation && (is_positive repository && is_positive pr)) bad_scope
  guard (is_valid_login login) bad_login

unfoldable pub check_recipients : ℕ → ℕ → ℕ → List Text → Answer (Unit {0})
unfolding check_recipient
check_recipients installation repository pr [] = ok tt
check_recipients installation repository pr (u ∷ us) = do
  check_recipient installation repository pr u
  check_recipients installation repository pr us

-- the `BTreeSet` of the logins, in its order
unfoldable pub normalized : List Text → List Text
unfolding sort_texts dedup
normalized users = dedup (sort_texts (map to_ascii_lowercase users))

abbrev pub new_recipient : EventContext → Text → Text → Recipient
new_recipient ctx key login = record {
  installation = ctx.installation_id;
  repository = ctx.repository_id;
  pr = ctx.thread_id;
  login = login;
  operation = key;
  committed = false;
}

-- The loop over the logins: those that get a place, while places remain, and those that do not.
unfoldable pub reserve :
    EventContext → Text → ℕ → List Text → List Recipient → List Recipient × List Text
reserve ctx key remaining [] rs = (rs, [])
reserve ctx key remaining (u ∷ us) rs =
    let known = any (λ r. of_context ctx r && text_eq r.login u) rs in
    let placed = not known && not (remaining == 0) in
    let r =
      reserve ctx key (if placed then remaining - 1 else remaining) us
        (if placed then rs ++ new_recipient ctx key u ∷ [] else rs) in
    (r.0, if known || placed then r.1 else u ∷ r.1)

abbrev pub commit_recipients : Text → List Recipient → List Recipient
commit_recipients key rs = update_where (belongs_to key) (λ r. record r { committed = true }) rs

abbrev pub release_recipients : Text → List Recipient → List Recipient
release_recipients key rs = delete_where (λ r. belongs_to key r && not r.committed) rs

abbrev pub is_completion : State → Bool
is_completion State.pending = false
is_completion State.running = false
is_completion _ = true

-- what the end of an attempt does to its reservations; a superseded one is unsent here
abbrev pub settle_recipients : State → Text → List Recipient → List Recipient
settle_recipients State.succeeded key rs = commit_recipients key rs
settle_recipients State.failed key rs = release_recipients key rs
settle_recipients State.superseded key rs = release_recipients key rs
settle_recipients _ key rs = rs
