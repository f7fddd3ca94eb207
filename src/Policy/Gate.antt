-- ===== src/Policy/Gate.antt =====
-- What `Comments::gate` (src/config/repository.rs) permits, and why it refuses.
use xero_bot.Prelude.{Bool, ◌≡◌, ◌↔◌, ◌≢◌, true, false, arith, refl, ◌&&◌, not, ◌||◌}
use xero_bot.Command.{CommandId, id_requires_pr}
use xero_bot.Policy.{
  gate_mode, gate, ManualMode, mode, Comments, CommandId, Bool, refused, ok, disabled_reason,
  disabled, Admits, requires_pr_reason, true, no_mention, mention_once, always_mention,
  mention_required, not, session_required,
}

gate_mode_iff :
    (m : ManualMode) (id : CommandId) (is_pr explicit session : Bool)
    → (gate_mode m id is_pr explicit session ≡ ok tt)
      ↔ (Admits m explicit session × (id_requires_pr id ≡ true → is_pr ≡ true))
unfolding gate_mode
gate_mode_iff disabled id is_pr explicit session = (λ h. cc, λ h. absurd h.0)
gate_mode_iff no_mention id is_pr explicit session =
    (λ h. (tt, λ e. ground arith), λ h. ground (arith, h.1))
gate_mode_iff mention_once id is_pr explicit session =
    (λ h. (ground arith, λ e. ground arith), λ h. ground (arith, h.1))
gate_mode_iff always_mention id is_pr explicit session =
    (λ h. (ground arith, λ e. ground arith), λ h. ground (arith, h.1))

-- What each refusal says of the mode, the thread and the evidence.
gate_mode_refusal :
    (m : ManualMode) (id : CommandId) (is_pr explicit session : Bool)
    → ((gate_mode m id is_pr explicit session ≡ refused disabled_reason) ↔ (m ≡ disabled))
      × (((gate_mode m id is_pr explicit session ≡ refused requires_pr_reason)
            ↔ ((m ≢ disabled) × (id_requires_pr id ≡ true) × (is_pr ≡ false)))
          × (((gate_mode m id is_pr explicit session ≡ refused mention_required) ↔ (
                (m ≡ always_mention)
                × ((id_requires_pr id && not is_pr) ≡ false)
                × (explicit ≡ false)))
              × ((gate_mode m id is_pr explicit session ≡ refused session_required) ↔ (
                  (m ≡ mention_once)
                  × ((id_requires_pr id && not is_pr) ≡ false)
                  × ((explicit || session) ≡ false)))))
unfolding gate_mode
gate_mode_refusal disabled id is_pr explicit session = (
  (λ h. refl, λ h. refl),
  ((λ h. cc, λ h. absurd (h.0 refl)), ((λ h. cc, λ h. ground arith), (λ h. cc, λ h. ground arith))),
)
gate_mode_refusal no_mention id is_pr explicit session = (
  (λ h. ground arith, λ h. cc),
  (
    (λ h. (λ e. cc, ground arith, ground arith), λ h. ground arith),
    ((λ h. ground arith, λ h. ground arith), (λ h. ground arith, λ h. ground arith)),
  ),
)
gate_mode_refusal mention_once id is_pr explicit session = (
  (λ h. ground arith, λ h. cc),
  (
    (λ h. (λ e. cc, ground arith, ground arith), λ h. ground arith),
    (
      (λ h. ground arith, λ h. ground arith),
      (λ h. (refl, ground arith, ground arith), λ h. ground arith),
    ),
  ),
)
gate_mode_refusal always_mention id is_pr explicit session = (
  (λ h. ground arith, λ h. cc),
  (
    (λ h. (λ e. cc, ground arith, ground arith), λ h. ground arith),
    (
      (λ h. (refl, ground arith, ground arith), λ h. ground arith),
      (λ h. ground arith, λ h. ground arith),
    ),
  ),
)

-- The gate passes a candidate exactly when its command's mode admits the evidence and, if the
-- command needs a pull request, the thread is one.
pub gate_iff :
    (c : Comments) (id : CommandId) (is_pr explicit session : Bool)
    → (gate c id is_pr explicit session ≡ ok tt)
      ↔ (Admits (c.modes id) explicit session × (id_requires_pr id ≡ true → is_pr ≡ true))
unfolding gate mode
gate_iff c id is_pr explicit session = gate_mode_iff (c.modes id) id is_pr explicit session

-- A refusal names its first reason: a disabled command, then a missing pull request, then missing
-- evidence. `mention_required` is the answer exactly where the mode always asks for a mention and there
-- is none, `session_required` exactly where the mode asks for one mention and there is neither a mention
-- nor a session, each where the command does not miss a pull request.
pub gate_refusal :
    (c : Comments) (id : CommandId) (is_pr explicit session : Bool)
    → ((gate c id is_pr explicit session ≡ refused disabled_reason) ↔ (c.modes id ≡ disabled))
      × (((gate c id is_pr explicit session ≡ refused requires_pr_reason)
            ↔ ((c.modes id ≢ disabled) × (id_requires_pr id ≡ true) × (is_pr ≡ false)))
          × (((gate c id is_pr explicit session ≡ refused mention_required) ↔ (
                (c.modes id ≡ always_mention)
                × ((id_requires_pr id && not is_pr) ≡ false)
                × (explicit ≡ false)))
              × ((gate c id is_pr explicit session ≡ refused session_required) ↔ (
                  (c.modes id ≡ mention_once)
                  × ((id_requires_pr id && not is_pr) ≡ false)
                  × ((explicit || session) ≡ false)))))
unfolding gate mode
gate_refusal c id is_pr explicit session = gate_mode_refusal (c.modes id) id is_pr explicit session
