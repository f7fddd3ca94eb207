-- ===== src/Policy.antt =====
-- The trigger policy of a repository: `ManualMode`, `Comments` and its gate (src/config/repository.rs).
-- A `BTreeMap` from commands to modes with an entry for each command is a function.
pub mod Gate
pub mod Tests
use xero_bot.Command.{CommandId, cc_id, id_requires_pr}
use xero_bot.Prelude.{Bool, ℕ, if◌then◌else◌, ◌≡◌, ◌||◌, true, ◌⊎◌, ◌&&◌, not}

pub data ManualMode : Type 0 where
  disabled no_mention mention_once always_mention : ManualMode

pub data ReasonCode : Type 0 where
  invalid_document invalid_comments invalid_idle invalid_rule duplicate_rule_id : ReasonCode
  invalid_path_settings invalid_forgejo_sync unsupported disabled_reason requires_pr_reason :
      ReasonCode
  mention_required session_required session_unavailable permission_denied : ReasonCode
  permission_unknown relay_disabled self_approval invalid_credited repository_unavailable :
      ReasonCode
  branch_unavailable forbidden rate_limited api_failure transport invalid_response : ReasonCode
  invalidated : ReasonCode

pub data Domain {ℓ} (A : Type ℓ) : Type ℓ where
  ok : A → Domain A
  refused : ReasonCode → Domain A

infixl 5 ◌>>=◌
abbrev pub ◌>>=◌ {ℓ κ} : {A : Type ℓ} {B : Type κ} → Domain A → (A → Domain B) → Domain B
ok a >>= f = f a
refused r >>= f = refused r

pub ok_inj {ℓ} : {A : Type ℓ} {a b : A} → ok a ≡ ok b → a ≡ b
ok_inj h = cc

unfoldable pub default_mode : CommandId → ManualMode
default_mode CommandId.claim = no_mention
default_mode CommandId.unclaim = no_mention
default_mode cc_id = no_mention
default_mode CommandId.request_review = no_mention
default_mode CommandId.ready = no_mention
default_mode CommandId.approve = always_mention
default_mode CommandId.reject = always_mention
default_mode CommandId.rollup = always_mention
default_mode CommandId.try = always_mention
default_mode CommandId.retry = always_mention
default_mode _ = mention_once

pub record Comments : Type 0 where
  pub modes : CommandId → ManualMode
  pub ttl_days : ℕ

-- `Comments::default`
abbrev pub default_comments : Comments
default_comments = record { modes = default_mode; ttl_days = 30 }

unfoldable pub mode : Comments → CommandId → ManualMode
mode c id = c.modes id

abbrev pub not_disabled : ManualMode → Domain ManualMode
not_disabled disabled = refused disabled_reason
not_disabled m = ok m

unfoldable pub enabled : Comments → CommandId → Domain ManualMode
unfolding mode
enabled c id = not_disabled (mode c id)

-- the `match mode` of `gate`
unfoldable pub evidence_for : ManualMode → Bool → Bool → Domain (Unit {0})
evidence_for always_mention explicit session = if explicit then ok tt else refused mention_required
evidence_for mention_once explicit session =
    if explicit || session then ok tt else refused session_required
evidence_for _ explicit session = ok tt

-- `gate` once the mode is known
unfoldable pub gate_mode : ManualMode → CommandId → Bool → Bool → Bool → Domain (Unit {0})
unfolding evidence_for
gate_mode m id is_pr explicit session = do
  m' ← not_disabled m
  if id_requires_pr id && not is_pr
      then refused requires_pr_reason
      else evidence_for m' explicit session

unfoldable pub gate : Comments → CommandId → Bool → Bool → Bool → Domain (Unit {0})
unfolding enabled gate_mode
gate c id is_pr explicit session = gate_mode (mode c id) id is_pr explicit session

-- What a mode asks of a candidate, with no order among the checks.
abbrev pub Admits : ManualMode → Bool → Bool → Type 0
Admits disabled explicit session = ⊥
Admits no_mention explicit session = Unit
Admits mention_once explicit session = (explicit ≡ true) ⊎ (session ≡ true)
Admits always_mention explicit session = explicit ≡ true
