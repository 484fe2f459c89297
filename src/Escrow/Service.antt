-- ===== src/Escrow/Service.antt =====
-- src/services/escrow.service.ts: an admin's resolution of a flagged escrow, and the retry of an
-- expired one. Both run under a lock: `lock` says whether it was acquired. `others n` is what the rest
-- of the system does to both collections at the n-th wait. The audit log and the notifications change
-- neither collection.
use swift_chain_backend.Common.{
  ℕ, ◌+◌, ◌*◌, Bool, true, not, Option, none, some, if◌then◌else◌, Text, trim,
}
use swift_chain_backend.Database.{Collection}
use swift_chain_backend.Delivery.{
  DeliveryStatus, funded, completed, cancelled, Delivery, bad_request, not_found, conflict, Result,
  ok, err, same_status,
}
use swift_chain_backend.Delivery.Service.{set_status}
use swift_chain_backend.Escrow.{
  locked, released, refunded, resolved, Escrow, is_resolvable, is_expired,
}

pub data EscrowResolution : Type 0 where
  release_to_driver refund_to_payer keep_locked : EscrowResolution

pub data ExpiredEscrowAction : Type 0 where
  refund cancel : ExpiredEscrowAction

unfoldable pub compute_expires_at : (ttl_seconds : ℕ) → ℕ → ℕ
compute_expires_at ttl_seconds locked_at = locked_at + ttl_seconds * 1000

abbrev pub signed : Text → Text → ℕ → Escrow → Escrow
signed admin reason now e = record e {
  resolved_at = some now;
  resolved_by = some (trim admin);
  resolution_notes = some (trim reason);
}

-- The fields that `resolveEscrow` sets.
unfoldable pub set_resolution :
    (ttl_seconds : ℕ) → EscrowResolution → Text → Text → ℕ → Escrow → Escrow
unfolding compute_expires_at
set_resolution ttl release_to_driver admin reason now e =
    signed admin reason now (record e { status = released; released_at = some now })
set_resolution ttl refund_to_payer admin reason now e =
    signed admin reason now (record e { status = refunded; refunded_at = some now })
set_resolution ttl keep_locked admin reason now e =
    signed admin reason now
      (record e { status = locked; expires_at = some (compute_expires_at ttl now) })

unfoldable pub resolved_delivery : EscrowResolution → Option DeliveryStatus
resolved_delivery release_to_driver = some completed
resolved_delivery refund_to_payer = some cancelled
resolved_delivery keep_locked = none

-- The fields that `retryExpiredEscrow` sets.
unfoldable pub set_retry :
    (ttl_seconds : ℕ) → ExpiredEscrowAction → Text → Text → ℕ → Escrow → Escrow
unfolding compute_expires_at
set_retry ttl refund admin reason now e = signed admin reason now (record e {
  status = locked;
  locked_at = some now;
  expires_at = some (compute_expires_at ttl now);
  expired_at = none;
  flagged_at = none;
})
set_retry ttl cancel admin reason now e = signed admin reason now (record e { status = resolved })

unfoldable pub retried_delivery : ExpiredEscrowAction → DeliveryStatus
retried_delivery refund = funded
retried_delivery cancel = cancelled

module _ (is_valid_id : Text → Bool) (escrows : Collection Escrow)
    (deliveries : Collection Delivery) where
  pub record World : Type 0 where
    pub escrow_state : escrows.State
    pub delivery_state : deliveries.State

  -- `applyDeliveryStatus`: the `save` after the read writes the status only.
  unfoldable pub apply_delivery_status : Text → DeliveryStatus → (ℕ → World → World) → World → World
  unfolding set_status
  apply_delivery_status id status others w = elim (deliveries.find_by_id id w.delivery_state) [
    | none ↦ w
    | some d ↦ if same_status d.status status then w else record (others 2 w) {
      delivery_state =
          deliveries.update_where id (λ x. true) (set_status status) (others 2 w).delivery_state;
    }
  ]

  unfoldable pub apply_if : Text → Option DeliveryStatus → (ℕ → World → World) → World → World
  apply_if id none others w = w
  apply_if id (some status) others w = apply_delivery_status id status others (others 1 w)

  -- `escrow.save()` of the escrow `read` and what follows it: the update `f` is made in memory and on the
  -- document as it is stored by then, an error if it is gone. The one in memory is given back.
  unfoldable pub save_and_apply :
      Text
      → (Escrow → Escrow)
      → (read : Escrow) → Option DeliveryStatus
      → (ℕ → World → World)
      → World
      → Result Escrow × World
  unfolding apply_if
  save_and_apply id f read status others w = elim (escrows.find_by_id id w.escrow_state) [
    | none ↦ (err not_found, w)
    | some e ↦ (
      ok (f read),
      apply_if read.delivery status others
          (record w { escrow_state = escrows.update_where id (λ x. true) f w.escrow_state }),
    )
  ]

  -- The outer `none` is the error of a lock that could not be acquired.
  unfoldable pub resolve_escrow :
      (ttl_seconds : ℕ) (lock : Bool)
      → Text
      → Text
      → Option EscrowResolution
      → Text
      → ℕ
      → (ℕ → World → World)
      → World
      → Option (Result Escrow) × World
  resolve_escrow ttl lock id admin none reason now others w = (some (err bad_request), w)
  resolve_escrow ttl lock id admin (some resolution) reason now others w =
      if not (is_valid_id id)
      then (some (err bad_request), w)
      else if not lock
      then (none, w)
      else elim (escrows.find_by_id id w.escrow_state) [
        | none ↦ (some (err not_found), w)
        | some e ↦
            if not (is_resolvable e.status)
            then (some (err conflict), w)
            else (let (r, w') =
                  save_and_apply id (set_resolution ttl resolution admin reason now) e
                    (resolved_delivery resolution) others (others 0 w) in
                (some r, w'))
      ]

  unfoldable pub retry_expired_escrow :
      (ttl_seconds : ℕ) (lock : Bool)
      → Text
      → Text
      → Option ExpiredEscrowAction
      → Text
      → ℕ
      → (ℕ → World → World)
      → World
      → Option (Result Escrow) × World
  retry_expired_escrow ttl lock id admin none reason now others w = (some (err bad_request), w)
  retry_expired_escrow ttl lock id admin (some action) reason now others w =
      if not (is_valid_id id)
      then (some (err bad_request), w)
      else if not lock
      then (none, w)
      else elim (escrows.find_by_id id w.escrow_state) [
        | none ↦ (some (err not_found), w)
        | some e ↦
            if not (is_expired e.status)
            then (some (err conflict), w)
            else (let (r, w') =
                  save_and_apply id (set_retry ttl action admin reason now) e
                    (some (retried_delivery action)) others (others 0 w) in
                (some r, w'))
      ]
