-- ===== src/Store/Inbox.antt =====
-- The inbox of src/trigger_state/store.rs: envelopes that a planner claims, finishes and resumes.
use xero_bot.Text.Order.{text_lt}
use xero_bot.Prelude.{
  ℕ, Bool, Option, ◌+◌, [], ◌&&◌, ◌==◌, not, ◌||◌, some, ltb, leb, any, if◌then◌else◌, none, ◌*◌,
  true, false,
}
use xero_bot.Store.Table.{
  update_where, count_where, insert_or_ignore, delete_where, first_by, find_where, select_where,
}
use xero_bot.Text.{Text, codes, text_eq}
use xero_bot.Store.{
  State, InboxRow, InboxItem, EventContext, Db, is_state, retry_delay, Answer, ok, err,
  stale_inbox_lease, delivery_reused,
}

abbrev pub has_delivery : Text → InboxRow → Bool
has_delivery delivery r = text_eq r.delivery delivery

-- the row that INSERT leaves, with the defaults of the table
abbrev pub new_envelope : EventContext → ℕ → InboxRow
new_envelope context now = record {
  delivery = context.delivery;
  context = context;
  state = State.pending;
  attempts = 0;
  next_at = 0;
  updated_at = now;
  detail = [];
}

-- `context_eq` compares the JSON texts of two contexts.
unfoldable pub enqueue :
    {Value : Type 0}
    → (EventContext → EventContext → Bool)
    → EventContext
    → ℕ
    → Db Value
    → Answer (Bool × Db Value)
unfolding insert_or_ignore find_where
enqueue context_eq context now db = elim (find_where (has_delivery context.delivery) db.inbox) [
  | none ↦ ok (
    true,
    record db {
      inbox = insert_or_ignore (has_delivery context.delivery) (new_envelope context now) db.inbox;
    },
  )
  | some previous ↦
      if context_eq previous.context context then ok (false, db) else err delivery_reused
]

abbrev pub is_due : ℕ → InboxRow → Bool
is_due now r = is_state r.state State.pending && leb r.next_at now

-- ORDER BY next_at,delivery
abbrev pub due_before : InboxRow → InboxRow → Bool
due_before r s =
    ltb r.next_at s.next_at || (r.next_at == s.next_at && text_lt r.delivery s.delivery)

abbrev pub start_envelope : ℕ → InboxRow → InboxRow
start_envelope now r = record r {
  state = State.running;
  attempts = r.attempts + 1;
  updated_at = now;
}

unfoldable pub claim_inbox : {Value : Type 0} → ℕ → Db Value → Option InboxItem × Db Value
unfolding first_by select_where update_where
claim_inbox now db = elim (first_by due_before (select_where (is_due now) db.inbox)) [
  | none ↦ (none, db)
  | some r ↦ (
    some (record { context = r.context; attempt = r.attempts + 1 }),
    record db {
      inbox =
          update_where (λ s. has_delivery r.context.delivery s && is_state s.state State.pending)
            (start_envelope now) db.inbox;
    },
  )
]

abbrev pub holds_envelope : InboxItem → State → InboxRow → Bool
holds_envelope item state r =
    has_delivery item.context.delivery r && (r.attempts == item.attempt && is_state r.state state)

abbrev pub end_envelope : InboxItem → Option Text → ℕ → InboxRow → InboxRow
end_envelope item none now r = record r {
  state = State.succeeded;
  next_at = now + retry_delay item.attempt;
  detail = [];
  updated_at = now;
}
end_envelope item (some retry) now r = record r {
  state = State.pending;
  next_at = now + retry_delay item.attempt;
  detail = retry;
  updated_at = now;
}

unfoldable pub finish_inbox :
    {Value : Type 0} → InboxItem → Option Text → ℕ → Db Value → Answer (Unit {0} × Db Value)
unfolding count_where update_where
finish_inbox item retry now db =
    let held = holds_envelope item State.running in
    if count_where held db.inbox == 1
    then ok (tt, record db { inbox = update_where held (end_envelope item retry now) db.inbox })
    else err stale_inbox_lease

unfoldable pub defer_interrupted_inbox : {Value : Type 0} → InboxItem → ℕ → Db Value → Db Value
unfolding update_where retry_delay
defer_interrupted_inbox item now db = record db {
  inbox =
      update_where (holds_envelope item State.unknown)
        (λ r. record r {
          state = State.pending;
          next_at = now + retry_delay item.attempt;
          detail = codes "worker interrupted";
        })
        db.inbox;
}

unfoldable pub resume_inbox : {Value : Type 0} → ℕ → Db Value → Db Value
unfolding update_where
resume_inbox now db = record db {
  inbox =
      update_where (λ r. is_state r.state State.unknown)
        (λ r. record r { state = State.pending; next_at = now }) db.inbox;
}

abbrev pub is_settled : State → Bool
is_settled state = is_state state State.succeeded || is_state state State.superseded

-- an envelope that no unsettled operation belongs to
abbrev pub is_released : {Value : Type 0} → Db Value → InboxRow → Bool
is_released db r = not (
    any
      (λ o.
        (text_eq o.delivery r.delivery || text_eq o.lease_delivery r.delivery)
        && not (is_settled o.state))
      db.operations)

-- 30 days, of which `saturating_sub` on times leaves the comparison
abbrev pub is_expired : {Value : Type 0} → Db Value → ℕ → InboxRow → Bool
is_expired db now r =
    is_state r.state State.succeeded && (ltb (r.updated_at + 30 * 86400) now && is_released db r)

-- ORDER BY updated_at,delivery LIMIT n
abbrev pub older : InboxRow → InboxRow → Bool
older r s =
    ltb r.updated_at s.updated_at || (r.updated_at == s.updated_at && text_lt r.delivery s.delivery)

-- a row stands among the first n if fewer than n come before it
unfoldable pub cleanup_inbox : {Value : Type 0} → ℕ → Db Value → Db Value
unfolding delete_where count_where
cleanup_inbox now db = record db {
  inbox =
      delete_where
        (λ r.
          is_expired db now r
          && ltb (count_where (λ s. is_expired db now s && older s r) db.inbox) 500)
        db.inbox;
}
