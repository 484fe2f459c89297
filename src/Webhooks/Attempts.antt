-- ===== src/Webhooks/Attempts.antt =====
-- What is stored of an attempt at any time: its status, count and next retry belong together.
use swift_chain_backend.Common.{
  ℕ, ◌+◌, ◌≤◌, ◌<◌, true, Option, none, some, leb, ◌≡◌, inl, inr, refl, arith, Bool-cases,
}
use swift_chain_backend.Webhooks.{
  AttemptStatus, pending, success, failed, exhausted, WebhookDeliveryAttempt, WebhookSettings,
  Posting, record_outcome, give_up, validate_status, mark_success, mark_exhausted, mark_failed,
  compute_next_retry,
}
use swift_chain_backend.Webhooks.Service.{is_due, is_failed}

-- The count that belongs to a status, and whether there is a next retry.
abbrev IsStage : AttemptStatus → ℕ → ℕ → Option ℕ → Type 0
IsStage pending n limit next = (n ≡ 0) × (next ≡ none)
IsStage success n limit next = (1 ≤ n) × (next ≡ none)
IsStage failed n limit next = (1 ≤ n) × (n < limit) × ((t : ℕ) × (next ≡ some t))
IsStage exhausted n limit next = next ≡ none

pub record IsCoherent (c : WebhookSettings) (a : WebhookDeliveryAttempt) : Type 0 where
  pub limit : a.max_attempts ≡ c.max_retries
  pub few : a.attempts ≤ a.max_attempts
  pub stage : IsStage a.status a.attempts a.max_attempts a.next_retry_at

-- An attempt for which another POST is allowed.
pub record IsOpen (c : WebhookSettings) (a : WebhookDeliveryAttempt) : Type 0 where
  pub limit : a.max_attempts ≡ c.max_retries
  pub few : a.attempts < a.max_attempts

pub record_outcome-IsCoherent :
    (c : WebhookSettings) (a d : WebhookDeliveryAttempt) (p : Posting)
    → IsOpen c a
    → d.max_attempts ≡ c.max_retries
    → IsCoherent c (record_outcome c a p d)
unfolding record_outcome mark_success mark_exhausted mark_failed
record_outcome-IsCoherent c a d p room same =
    let limit = room.limit in
    let few = room.few in
    elim (Bool-cases (validate_status p.answer)) [
      | inl good ↦ rw good (record {
        limit = same;
        few = omega (arith, same, limit, few);
        stage = (omega arith, refl);
      })
      | inr bad ↦ elim (Bool-cases (leb a.max_attempts (a.attempts + 1))) [
        | inl last ↦
            rw (bad, last)
              (record { limit = same; few = omega (arith, same, limit, few); stage = refl })
        | inr more ↦
            rw (bad, more)
              (record {
                limit = same;
                few = omega (arith, same, limit, few);
                stage = (
                  omega arith,
                  ground (arith, same, limit),
                  (compute_next_retry c (a.attempts + 1) p, refl),
                );
              })
      ]
    ]

pub give_up-IsCoherent :
    (c : WebhookSettings) (d : WebhookDeliveryAttempt) → IsCoherent c d → IsCoherent c (give_up d)
unfolding give_up
give_up-IsCoherent c d k = record { limit = k.limit; few = k.few; stage = refl }

failed_stage :
    (s : AttemptStatus) (n limit : ℕ) (next : Option ℕ)
    → is_failed s ≡ true
    → IsStage s n limit next
    → n < limit
failed_stage pending n limit next h k = absurd (cc)
failed_stage success n limit next h k = absurd (cc)
failed_stage failed n limit next h k = k.1
failed_stage exhausted n limit next h k = absurd (cc)

pub due-IsOpen :
    (c : WebhookSettings) (now : ℕ) (a : WebhookDeliveryAttempt)
    → IsCoherent c a
    → is_due now a ≡ true
    → IsOpen c a
unfolding is_due
due-IsOpen c now a k due = record {
  limit = k.limit;
  few = failed_stage a.status a.attempts a.max_attempts a.next_retry_at (ground arith) k.stage;
}
