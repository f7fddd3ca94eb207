-- ===== src/Store/Queue.antt =====
-- The queues of src/trigger_state/store.rs: which envelope a planner gets, which envelopes are deleted,
-- and which session a mention belongs to.
use xero_bot.Text.Laws.{text_eq_refl}
use xero_bot.Prelude.{
  ◌≡◌, refl, true, false, [], ◌∷◌, All, Member, some, none, arith, ℕ, Option-cases, inl, inr, ◌&&◌,
  ◌⊎◌, ◌+◌, ◌*◌, ◌≢◌, Bool, ◌≤◌, ◌<◌, Bool-cases, List, Option, leb, any, here, All-map, ◌||◌, ap,
  not, sym, there,
}
use xero_bot.Text.{Text, text_eq}
use xero_bot.Text.Order.{text_lt}
use xero_bot.Store.{Db, State, InboxRow, Session, SessionWake, is_state, OperationRow}
use xero_bot.Store.Inbox.{claim_inbox, is_due, due_before, cleanup_inbox, is_expired, is_settled}
use xero_bot.Store.Sessions.{
  session_before_at, is_live_before, later_session, woken_by, is_positive_wake,
}
use xero_bot.Store.Table.{first_by, select_where}
use xero_bot.Store.Table.Laws.{
  first_by-Least, first_by-none, select-nil, select-All, Member-select, Member-delete,
}

text_lt_asym : (s t : Text) → text_lt s t ≡ true → text_lt t s ≡ false
unfolding text_lt
text_lt_asym [] [] h = refl
text_lt_asym [] (b ∷ t) h = refl
text_lt_asym (a ∷ s) [] h = ground (arith, h)
text_lt_asym (a ∷ s) (b ∷ t) h = ground (arith, text_lt_asym s t)

text_lt_trans : (s t u : Text) → text_lt s t ≡ false → text_lt t u ≡ false → text_lt s u ≡ false
unfolding text_lt
text_lt_trans s t [] h k = refl
text_lt_trans [] [] (c ∷ u) h k = ground (arith, k)
text_lt_trans [] (b ∷ t) (c ∷ u) h k = ground (arith, h)
text_lt_trans (a ∷ s) [] (c ∷ u) h k = ground (arith, k)
text_lt_trans (a ∷ s) (b ∷ t) (c ∷ u) h k = ground (arith, text_lt_trans s t u)

due_before_asym : (a b : InboxRow) → due_before a b ≡ true → due_before b a ≡ false
due_before_asym a b h = ground (arith, text_lt_asym a.delivery b.delivery)

due_before_trans :
    (a b c : InboxRow) → due_before a b ≡ false → due_before b c ≡ false → due_before a c ≡ false
due_before_trans a b c h k = ground (arith, text_lt_trans a.delivery b.delivery c.delivery)

later_session_asym : (a b : Session) → later_session a b ≡ true → later_session b a ≡ false
later_session_asym a b h = ground arith

later_session_trans :
    (a b c : Session)
    → later_session a b ≡ false
    → later_session b c ≡ false
    → later_session a c ≡ false
later_session_trans a b c h k = ground arith

-- `claim_inbox` returns the envelope of a pending row that is due, with the next number of an attempt,
-- and no pending row that is due comes before it by its time and then its delivery; it returns none
-- only if no pending row is due.
pub claim_inbox-Earliest :
    {Value : Type 0} (now : ℕ) (db : Db Value)
    → ((claim_inbox now db).0 ≡ none) × All (λ r. is_due now r ≡ false) db.inbox
      ⊎ ((r : InboxRow) × (((claim_inbox now db).0
              ≡ some (record { context = r.context; attempt = r.attempts + 1 }))
            × ((Member r db.inbox × (is_due now r ≡ true))
                × All (λ s. is_due now s ≡ true → due_before s r ≡ false) db.inbox)))
unfolding claim_inbox
claim_inbox-Earliest now db =
    elim (Option-cases (first_by due_before (select_where (is_due now) db.inbox))) [
      | inl e ↦
          inl (ground (arith, e), select-nil (is_due now) db.inbox (first_by-none due_before _ e))
      | inr e ↦
          let least =
            first_by-Least due_before (select_where (is_due now) db.inbox) e.0 due_before_asym
              due_before_trans e.1 in
          inr (
            e.0,
            (
              ground (arith, e.1),
              (
                Member-select (is_due now) db.inbox e.0 least.0,
                select-All _ (is_due now) db.inbox least.1,
              ),
            ),
          )
    ]

-- Why an envelope is kept: it is not succeeded, it was updated in the last 30 days, or an operation that
-- is neither succeeded nor superseded came with its delivery or is leased for it.
abbrev pub IsNeeded : {Value : Type 0} → ℕ → Db Value → InboxRow → Type 0
IsNeeded {Value} now db r =
    (r.state ≢ State.succeeded)
    ⊎ ((now ≤ r.updated_at + 30 * 86400)
        ⊎ ((o : OperationRow Value) × (Member o db.operations
              × (((o.delivery ≡ r.delivery) ⊎ (o.lease_delivery ≡ r.delivery))
                  × ((o.state ≢ State.succeeded) × (o.state ≢ State.superseded))))))

is_state-no : (s t : State) → s ≢ t → is_state s t ≡ false
is_state-no State.pending State.pending h = absurd (h refl)
is_state-no State.running State.running h = absurd (h refl)
is_state-no State.succeeded State.succeeded h = absurd (h refl)
is_state-no State.failed State.failed h = absurd (h refl)
is_state-no State.unknown State.unknown h = absurd (h refl)
is_state-no State.superseded State.superseded h = absurd (h refl)
is_state-no _ _ h = refl

any-Member :
    {A : Type 0} (t : A → Bool) (xs : List A) (x : A) → Member x xs → t x ≡ true → any t xs ≡ true
any-Member t [] x m h = elim m [ ]
any-Member t (y ∷ ys) x (here f) h = rw (ap t (sym f)) (rw h refl)
any-Member t (y ∷ ys) x (there m) h = ground (arith, any-Member t ys x m h)

is_needed :
    {Value : Type 0} (now : ℕ) (db : Db Value) (r : InboxRow)
    → IsNeeded now db r
    → is_expired db now r ≡ false
is_needed now db r (inl h) = ground (arith, is_state-no r.state State.succeeded h)
is_needed now db r (inr (inl h)) = ground (arith, h)
is_needed {Value} now db r (inr (inr (o, (m, (own, (h, k)))))) =
    let found =
      any-Member
        (λ o.
          (text_eq o.delivery r.delivery || text_eq o.lease_delivery r.delivery)
          && not (is_settled o.state))
        db.operations o m (owned o h k own) in
    ground (arith, found)
  where
    owned :
        (o : OperationRow Value)
        → o.state ≢ State.succeeded
        → o.state ≢ State.superseded
        → (o.delivery ≡ r.delivery) ⊎ (o.lease_delivery ≡ r.delivery)
        → ((text_eq o.delivery r.delivery || text_eq o.lease_delivery r.delivery)
            && not (is_settled o.state))
          ≡ true
    owned o h k (inl e) = ground (
      arith,
      is_state-no o.state _ h,
      is_state-no o.state _ k,
      ap (λ t. text_eq o.delivery t) (sym e),
      text_eq_refl o.delivery,
    )
    owned o h k (inr e) = ground (
      arith,
      is_state-no o.state _ h,
      is_state-no o.state _ k,
      ap (λ t. text_eq o.lease_delivery t) (sym e),
      text_eq_refl o.lease_delivery,
    )

-- `cleanup_inbox` keeps every envelope that is not succeeded, that was updated in the last 30 days, or
-- for which there is an operation, with its delivery or leased for it, that is neither succeeded nor
-- superseded; and it leaves every other table as it is.
pub cleanup_inbox-Keeps :
    {Value : Type 0} (now : ℕ) (db : Db Value) (r : InboxRow)
    → Member r db.inbox
    → IsNeeded now db r
    → Member r (cleanup_inbox now db).inbox
      × (((cleanup_inbox now db).operations ≡ db.operations)
          × (((cleanup_inbox now db).recipients ≡ db.recipients)
              × (((cleanup_inbox now db).sessions ≡ db.sessions)
                  × (((cleanup_inbox now db).audit ≡ db.audit)
                      × ((cleanup_inbox now db).ledgers ≡ db.ledgers)))))
unfolding cleanup_inbox
cleanup_inbox-Keeps now db r m h =
    let e = is_needed now db r h in
    (Member-delete _ db.inbox r m (ground (arith, e)), (refl, (refl, (refl, (refl, refl)))))

-- A session of the call's user in the call's thread, before the call by its time and then its comment,
-- and younger than the days of a session both at the call and at its execution.
abbrev pub IsLive : SessionWake → ℕ → ℕ → Session → Type 0
IsLive call ttl_days executed_at s =
    ((s.installation ≡ call.installation_id)
      × ((s.repository ≡ call.repository_id)
          × ((s.thread ≡ call.thread_number) × (s.user ≡ call.user_id))))
    × (((call.source_at < s.source_at + ttl_days * 86400000)
          × (executed_at < s.source_at + ttl_days * 86400000))
        × ((s.source_at < call.source_at)
            ⊎ ((s.source_at ≡ call.source_at) × (s.comment < call.comment_id))))

-- the time, then the comment
abbrev pub IsLater : Session → Session → Type 0
IsLater s t = (t.source_at < s.source_at) ⊎ ((t.source_at ≡ s.source_at) × (t.comment < s.comment))

-- the days and the ids that a search accepts
abbrev pub IsSearch : SessionWake → ℕ → Type 0
IsSearch call ttl_days =
    ((1 ≤ ttl_days) × (ttl_days ≤ 365))
    × ((0 < call.installation_id)
        × ((0 < call.repository_id)
            × ((0 < call.thread_number) × ((0 < call.user_id) × (0 < call.comment_id)))))

IsLive-yes :
    (call : SessionWake) (ttl_days executed_at : ℕ) (s : Session)
    → is_live_before call ttl_days executed_at s ≡ true
    → IsLive call ttl_days executed_at s
IsLive-yes call ttl_days executed_at s h = ground (arith, h)

IsLive-no :
    (call : SessionWake) (ttl_days executed_at : ℕ) (s : Session)
    → is_live_before call ttl_days executed_at s ≡ false
    → ¬ IsLive call ttl_days executed_at s
IsLive-no call ttl_days executed_at s h k = ground (arith, h, k)

not-IsLater :
    (call : SessionWake) (ttl_days executed_at : ℕ) (s t : Session)
    → (is_live_before call ttl_days executed_at t ≡ true → later_session t s ≡ false)
    → IsLive call ttl_days executed_at t
    → ¬ IsLater t s
not-IsLater call ttl_days executed_at s t h k l = ground (arith, h, k, l)

found_latest :
    (call : SessionWake) (ttl_days executed_at : ℕ) (ss : List Session) (o : Option Session)
    → first_by later_session (select_where (is_live_before call ttl_days executed_at) ss) ≡ o
    → ((o ≡ none) × All (λ s. ¬ IsLive call ttl_days executed_at s) ss)
      ⊎ ((s : Session) × ((o ≡ some s)
            × ((Member s ss × IsLive call ttl_days executed_at s)
                × All (λ t. IsLive call ttl_days executed_at t → ¬ IsLater t s) ss)))
found_latest call ttl_days executed_at ss none e =
    let live = is_live_before call ttl_days executed_at in
    inl (
      refl,
      All-map (λ s. IsLive-no call ttl_days executed_at s) ss
          (select-nil live ss (first_by-none later_session _ e)),
    )
found_latest call ttl_days executed_at ss (some s) e =
    let live = is_live_before call ttl_days executed_at in
    let least =
      first_by-Least later_session (select_where live ss) s later_session_asym later_session_trans
        e in
    let member = Member-select live ss s least.0 in
    inr (
      s,
      (
        refl,
        (
          (member.0, IsLive-yes call ttl_days executed_at s member.1),
          All-map (λ t. not-IsLater call ttl_days executed_at s t) ss
              (select-All _ live ss least.1),
        ),
      ),
    )

-- `session_before_at` finds the latest mention. With a count of days that is not from 1 to 365 or with an
-- id that is 0, it finds none. Otherwise it finds none only if no session is live, and what it finds is
-- the wake of a live session such that no live session is later. A session is live if it is of the
-- call's user and thread, before the call, and younger than the days of a session, both at the call and
-- at its execution.
pub session_before_at-Latest :
    {Value : Type 0} (call : SessionWake) (ttl_days executed_at : ℕ) (db : Db Value)
    → ((session_before_at call ttl_days executed_at db ≡ none)
        × ((¬ IsSearch call ttl_days)
            ⊎ All (λ s. ¬ IsLive call ttl_days executed_at s) db.sessions))
      ⊎ ((s : Session) × ((session_before_at call ttl_days executed_at db ≡ some (woken_by call s))
            × (IsSearch call ttl_days
                × ((Member s db.sessions × IsLive call ttl_days executed_at s)
                    × All (λ t. IsLive call ttl_days executed_at t → ¬ IsLater t s) db.sessions))))
unfolding session_before_at
session_before_at-Latest call ttl_days executed_at db =
    elim (Bool-cases (leb 1 ttl_days && (leb ttl_days 365 && is_positive_wake call))) [
      | inr e ↦ inl (ground (arith, e), inl (λ k. ground (arith, e, k)))
      | inl e ↦
          let live = is_live_before call ttl_days executed_at in
          elim (found_latest call ttl_days executed_at db.sessions
            (first_by later_session (select_where live db.sessions)) refl) [
              | inl f ↦ inl (rw e (rw f.0 refl), inr f.1)
              | inr (s, (f, g)) ↦ inr (s, (rw e (rw f refl), (ground (arith, e), g)))
            ]
    ]
