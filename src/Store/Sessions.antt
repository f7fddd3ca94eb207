-- ===== src/Store/Sessions.antt =====
-- Mention sessions of src/trigger_state/store.rs: who mentioned the bot in a thread, and when.
use xero_bot.Store.Reserve.{is_positive}
use xero_bot.Prelude.{none, ℕ, Bool, ltb, ◌&&◌, Option, ◌==◌, if◌then◌else◌, ◌||◌, leb, ◌+◌, ◌*◌}
use xero_bot.Store.Table.{first_by, insert_or_ignore, select_where}
use xero_bot.Store.{SessionWake, Session, Db, Answer, ◌>>◌, ok, guard, bad_session}
use mathlib.Core.Option

abbrev pub is_positive_wake : SessionWake → Bool
is_positive_wake w =
    is_positive w.installation_id
    && (is_positive w.repository_id
        && (is_positive w.thread_number && (is_positive w.user_id && is_positive w.comment_id)))

-- the sessions of the same user in the same thread
abbrev pub same_session : SessionWake → Session → Bool
same_session w s =
    s.installation == w.installation_id
    && (s.repository == w.repository_id && (s.thread == w.thread_number && s.user == w.user_id))

abbrev pub to_session : SessionWake → Session
to_session w = record {
  installation = w.installation_id;
  repository = w.repository_id;
  thread = w.thread_number;
  user = w.user_id;
  comment = w.comment_id;
  source_at = w.source_at;
}

unfoldable pub record_wake :
    {Value : Type 0} → SessionWake → Db Value → Answer (Unit {0} × Db Value)
unfolding insert_or_ignore
record_wake w db = do
  guard (is_positive_wake w) bad_session
  ok (
    tt,
    record db {
      sessions =
          insert_or_ignore (λ s. same_session w s && s.comment == w.comment_id) (to_session w)
            db.sessions;
    },
  )

-- Before the call in the order of the source, and not older than the days of a session. The source
-- takes the days from the later time; here they are added to the session's.
abbrev pub is_live_before : SessionWake → ℕ → ℕ → Session → Bool
is_live_before call ttl_days executed_at s =
    same_session call s
    && (ltb (if leb call.source_at executed_at then executed_at else call.source_at)
          (s.source_at + ttl_days * 86400000)
        && (ltb s.source_at call.source_at
            || (s.source_at == call.source_at && ltb s.comment call.comment_id)))

-- ORDER BY source_at DESC,comment DESC
abbrev pub later_session : Session → Session → Bool
later_session s t =
    ltb t.source_at s.source_at || (s.source_at == t.source_at && ltb t.comment s.comment)

abbrev pub woken_by : SessionWake → Session → SessionWake
woken_by call s = record call { comment_id = s.comment; source_at = s.source_at }

unfoldable pub session_before_at :
    {Value : Type 0} → SessionWake → ℕ → ℕ → Db Value → Option SessionWake
unfolding first_by select_where
session_before_at call ttl_days executed_at db =
    if leb 1 ttl_days && (leb ttl_days 365 && is_positive_wake call)
    then Option.map (woken_by call) (
        first_by later_session
          (select_where (is_live_before call ttl_days executed_at) db.sessions))
    else none

-- `session_before`
unfoldable pub session_before : {Value : Type 0} → SessionWake → ℕ → Db Value → Option SessionWake
unfolding session_before_at
session_before call ttl_days db = session_before_at call ttl_days call.source_at db
