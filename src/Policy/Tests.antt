-- ===== src/Policy/Tests.antt =====
-- Candidates at the gate of the default policy.
use xero_bot.Policy.Gate.{gate_iff, gate_refusal}
use xero_bot.Prelude.{true, false, ◌≡◌, ◌↔◌, refl, ◌≢◌, ◌&&◌, not, ◌||◌}
use xero_bot.Command.{id_requires_pr, approve, review}
use xero_bot.Policy.{
  gate, mode, default_comments, default_mode, id_requires_pr, true, refused, ok, mention_required,
  disabled_reason, disabled, Admits, requires_pr_reason, always_mention, not, session_required,
  mention_once,
}

mention_is_required : gate default_comments approve true false true ≡ refused mention_required
unfolding gate mode default_mode id_requires_pr
mention_is_required = refl

gate_iff_example :
    (gate default_comments review true false true ≡ ok tt)
    ↔ (Admits (default_mode review) false true × (id_requires_pr review ≡ true → true ≡ true))
gate_iff_example = gate_iff default_comments review true false true

gate_refusal_example :
    ((gate default_comments approve false true true ≡ refused disabled_reason)
      ↔ (default_mode approve ≡ disabled))
    × (((gate default_comments approve false true true ≡ refused requires_pr_reason)
          ↔ ((default_mode approve ≢ disabled) × (id_requires_pr approve ≡ true) × (false ≡ false)))
        × (((gate default_comments approve false true true ≡ refused mention_required) ↔ (
              (default_mode approve ≡ always_mention)
              × ((id_requires_pr approve && not false) ≡ false)
              × (true ≡ false)))
            × ((gate default_comments approve false true true ≡ refused session_required) ↔ (
                (default_mode approve ≡ mention_once)
                × ((id_requires_pr approve && not false) ≡ false)
                × ((true || true) ≡ false)))))
gate_refusal_example = gate_refusal default_comments approve false true true
