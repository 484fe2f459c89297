-- ===== src/Escrow/Resolution.antt =====
-- What an admin's resolution or retry does, and which escrows it leaves alone.
use swift_chain_backend.Common.{
  ℕ, Bool, true, false, Option, none, some, if◌then◌else◌, Text, text_eq, text_eq_iff, ◌≡◌, ◌≢◌,
  ◌⊎◌, inl, inr, refl, sym, ap, arith, Bool-cases, ◌+◌, ◌*◌, trim,
}
use swift_chain_backend.Database.{Collection}
use swift_chain_backend.Delivery.{
  DeliveryStatus, funded, completed, cancelled, Delivery, ok, same_status,
}
use swift_chain_backend.Delivery.Service.{set_status}
use swift_chain_backend.Delivery.Transitions.{same_status_iff}
use swift_chain_backend.Escrow.{
  pending, locked, released, refunded, disputed, expired, resolved, Escrow, is_resolvable,
  is_expired,
}
use swift_chain_backend.Escrow.Service.{
  EscrowResolution, release_to_driver, refund_to_payer, keep_locked, ExpiredEscrowAction, refund,
  cancel, World, compute_expires_at, set_resolution, resolved_delivery, set_retry, retried_delivery,
  apply_delivery_status, apply_if, save_and_apply, resolve_escrow, retry_expired_escrow,
}

abbrev pub moved : Option DeliveryStatus → Delivery → Delivery
moved none d = d
moved (some status) d = record d { status = status }

-- What an escrow and its delivery should be after each resolution: a release pays the driver and
-- completes the delivery, a refund cancels it, and an escrow that is kept gets a fresh expiry.
abbrev pub resolved_as :
    (ttl : ℕ) → EscrowResolution → Text → Text → ℕ → Escrow × Delivery → Escrow × Delivery
resolved_as ttl release_to_driver admin reason now (e, d) = (
  record e {
    status = released;
    released_at = some now;
    resolved_at = some now;
    resolved_by = some (trim admin);
    resolution_notes = some (trim reason);
  },
  record d { status = completed },
)
resolved_as ttl refund_to_payer admin reason now (e, d) = (
  record e {
    status = refunded;
    refunded_at = some now;
    resolved_at = some now;
    resolved_by = some (trim admin);
    resolution_notes = some (trim reason);
  },
  record d { status = cancelled },
)
resolved_as ttl keep_locked admin reason now (e, d) = (
  record e {
    status = locked;
    expires_at = some (now + ttl * 1000);
    resolved_at = some now;
    resolved_by = some (trim admin);
    resolution_notes = some (trim reason);
  },
  d,
)

-- What they should be after each retry: a refund locks the escrow again, not flagged and with a fresh
-- expiry, for a delivery that is funded; a cancellation closes both.
abbrev pub retried_as :
    (ttl : ℕ) → ExpiredEscrowAction → Text → Text → ℕ → Escrow × Delivery → Escrow × Delivery
retried_as ttl refund admin reason now (e, d) = (
  record e {
    status = locked;
    locked_at = some now;
    expires_at = some (now + ttl * 1000);
    expired_at = none;
    flagged_at = none;
    resolved_at = some now;
    resolved_by = some (trim admin);
    resolution_notes = some (trim reason);
  },
  record d { status = funded },
)
retried_as ttl cancel admin reason now (e, d) = (
  record e {
    status = resolved;
    resolved_at = some now;
    resolved_by = some (trim admin);
    resolution_notes = some (trim reason);
  },
  record d { status = cancelled },
)

resolution_lem :
    (ttl : ℕ) (resolution : EscrowResolution) (admin reason : Text) (now : ℕ) (e : Escrow)
    (d : Delivery)
    → (set_resolution ttl resolution admin reason now e, moved (resolved_delivery resolution) d)
      ≡ resolved_as ttl resolution admin reason now (e, d)
unfolding set_resolution resolved_delivery compute_expires_at
resolution_lem ttl release_to_driver admin reason now e d = refl
resolution_lem ttl refund_to_payer admin reason now e d = refl
resolution_lem ttl keep_locked admin reason now e d = refl

retry_lem :
    (ttl : ℕ) (action : ExpiredEscrowAction) (admin reason : Text) (now : ℕ) (e : Escrow)
    (d : Delivery)
    → (set_retry ttl action admin reason now e, moved (some (retried_delivery action)) d)
      ≡ retried_as ttl action admin reason now (e, d)
unfolding set_retry retried_delivery compute_expires_at
retry_lem ttl refund admin reason now e d = refl
retry_lem ttl cancel admin reason now e d = refl

module _ (is_valid_id : Text → Bool) (escrows : Collection Escrow)
    (deliveries : Collection Delivery) where
  abbrev idle : ℕ → World is_valid_id escrows deliveries → World is_valid_id escrows deliveries
  idle n w = w

  -- Both collections after a write of an escrow and of a delivery, and of nothing else.
  pub record IsStored (id delivery_id : Text) (x : Escrow × Delivery)
      (w w' : World is_valid_id escrows deliveries) : Type 0 where
    pub escrow_stored :
        (j : Text)
        → escrows.find_by_id j w'.escrow_state
          ≡ (if text_eq id j then some x.0 else escrows.find_by_id j w.escrow_state)
    pub delivery_stored :
        (j : Text)
        → deliveries.find_by_id j w'.delivery_state
          ≡ (if text_eq delivery_id j then some x.1 else deliveries.find_by_id j w.delivery_state)

  applied :
      (id : Text) (status : Option DeliveryStatus) (d : Delivery)
      (w : World is_valid_id escrows deliveries)
      → deliveries.find_by_id id w.delivery_state ≡ some d
      → let w' = apply_if is_valid_id escrows deliveries id status idle w in
        (w'.escrow_state ≡ w.escrow_state)
        × ((j : Text)
            → deliveries.find_by_id j w'.delivery_state ≡ (
                if text_eq id j
                then some (moved status d)
                else deliveries.find_by_id j w.delivery_state))
  unfolding apply_if apply_delivery_status set_status
  applied id none d w there = (refl, λ j. ground (arith, text_eq_iff id j))
  applied id (some status) d w there = elim (Bool-cases (same_status d.status status)) [
    | inl same ↦
        let kept : record d { status = status } ≡ d =
          ap (λ v. record d { status = v }) (sym ((same_status_iff d.status status).0 same)) in
        (ground arith, λ j. ground (arith, kept, text_eq_iff id j))
    | inr other ↦ (
      ground arith,
      λ j. ground (
        arith,
        deliveries.find_by_id-update_where id j (λ x. true) (set_status status) w.delivery_state,
        text_eq_iff id j,
      ),
    )
  ]

  pub saved :
      (id : Text) (f : Escrow → Escrow) (status : Option DeliveryStatus) (e : Escrow) (d : Delivery)
      (w : World is_valid_id escrows deliveries)
      → escrows.find_by_id id w.escrow_state ≡ some e
      → deliveries.find_by_id e.delivery w.delivery_state ≡ some d
      → let r = save_and_apply is_valid_id escrows deliveries id f e status idle w in
        (r.0 ≡ ok (f e)) × IsStored id e.delivery (f e, moved status d) w r.1
  unfolding save_and_apply
  saved id f status e d w found there =
      let written : World is_valid_id escrows deliveries = record w {
        escrow_state = escrows.update_where id (λ x. true) f w.escrow_state;
      } in
      let step : save_and_apply is_valid_id escrows deliveries id f e status idle w
          ≡ (ok (f e), apply_if is_valid_id escrows deliveries e.delivery status idle written) =
        ground arith in
      let (escrow_kept, delivered) = applied e.delivery status d written there in
      rw step (
        refl,
        record {
          escrow_stored = λ j. ground (
            arith,
            escrow_kept,
            escrows.find_by_id-update_where id j (λ x. true) f w.escrow_state,
            text_eq_iff id j,
          );
          delivery_stored = delivered;
        },
      )

  resolve_refuses :
      (ttl : ℕ) (lock : Bool) (id admin reason : Text) (resolution : Option EscrowResolution)
      (now : ℕ)
      (others : ℕ → World is_valid_id escrows deliveries → World is_valid_id escrows deliveries)
      (e changed : Escrow) (w : World is_valid_id escrows deliveries)
      → escrows.find_by_id id w.escrow_state ≡ some e
      → is_resolvable e.status ≡ false
      → let r =
          resolve_escrow is_valid_id escrows deliveries ttl lock id admin resolution reason now
            others w in
        (r.1 ≡ w) × (r.0 ≢ some (ok changed))
  unfolding resolve_escrow
  resolve_refuses ttl lock id admin reason none now others e changed w found shut = (refl, λ h. cc)
  resolve_refuses ttl lock id admin reason (some resolution) now others e changed w found shut =
      (ground arith, ground arith)

  retry_refuses :
      (ttl : ℕ) (lock : Bool) (id admin reason : Text) (action : Option ExpiredEscrowAction)
      (now : ℕ)
      (others : ℕ → World is_valid_id escrows deliveries → World is_valid_id escrows deliveries)
      (e changed : Escrow) (w : World is_valid_id escrows deliveries)
      → escrows.find_by_id id w.escrow_state ≡ some e
      → is_expired e.status ≡ false
      → let t =
          retry_expired_escrow is_valid_id escrows deliveries ttl lock id admin action reason now
            others w in
        (t.1 ≡ w) × (t.0 ≢ some (ok changed))
  unfolding retry_expired_escrow
  retry_refuses ttl lock id admin reason none now others e changed w found shut = (refl, λ h. cc)
  retry_refuses ttl lock id admin reason (some action) now others e changed w found shut =
      (ground arith, ground arith)

  -- With a valid id, the lock and no one else at work, `resolveEscrow` resolves a locked, disputed or
  -- expired escrow whose delivery is there. It returns and stores the escrow as released, as refunded,
  -- or as locked with a fresh expiry, with the time, the admin and the reason, and stores the delivery
  -- as completed, as cancelled, or as it was. Every other document of both collections is as before.
  pub resolve_escrow-IsStored :
      (ttl : ℕ) (id admin reason : Text) (resolution : EscrowResolution) (now : ℕ) (e : Escrow)
      (d : Delivery) (w : World is_valid_id escrows deliveries)
      → is_valid_id id ≡ true
      → escrows.find_by_id id w.escrow_state ≡ some e
      → (e.status ≡ locked) ⊎ (e.status ≡ disputed) ⊎ (e.status ≡ expired)
      → deliveries.find_by_id e.delivery w.delivery_state ≡ some d
      → let x = resolved_as ttl resolution admin reason now (e, d) in
        let r =
          resolve_escrow is_valid_id escrows deliveries ttl true id admin
            (some resolution)
            reason
            now
            idle
            w in
        (r.0 ≡ some (ok x.0)) × IsStored id e.delivery x w r.1
  unfolding resolve_escrow
  resolve_escrow-IsStored ttl id admin reason resolution now e d w valid found status there =
      let open_status : is_resolvable e.status ≡ true = unfold is_resolvable in ground arith in
      let (done, stored) =
        saved id (set_resolution ttl resolution admin reason now) (resolved_delivery resolution) e d
          w found there in
      let same = resolution_lem ttl resolution admin reason now e d in
      rw (valid, found, open_status, sym same) (ap some done, stored)

  -- With a valid id, the lock and no one else at work, `retryExpiredEscrow` re-locks an expired escrow
  -- whose delivery is there: locked now and no longer flagged, with a fresh expiry and the delivery
  -- funded, or it closes the escrow and cancels the delivery. Both are stored, with the time, the admin
  -- and the reason, and the escrow is returned. Every other document is as before.
  pub retry_expired_escrow-IsStored :
      (ttl : ℕ) (id admin reason : Text) (action : ExpiredEscrowAction) (now : ℕ) (e : Escrow)
      (d : Delivery) (w : World is_valid_id escrows deliveries)
      → is_valid_id id ≡ true
      → escrows.find_by_id id w.escrow_state ≡ some e
      → e.status ≡ expired
      → deliveries.find_by_id e.delivery w.delivery_state ≡ some d
      → let x = retried_as ttl action admin reason now (e, d) in
        let r =
          retry_expired_escrow is_valid_id escrows deliveries ttl true id admin
            (some action)
            reason
            now
            idle
            w in
        (r.0 ≡ some (ok x.0)) × IsStored id e.delivery x w r.1
  unfolding retry_expired_escrow
  retry_expired_escrow-IsStored ttl id admin reason action now e d w valid found status there =
      let open_status : is_expired e.status ≡ true = unfold is_expired in ground arith in
      let (done, stored) =
        saved id (set_retry ttl action admin reason now) (some (retried_delivery action)) e d w
          found there in
      let same = retry_lem ttl action admin reason now e d in
      rw (valid, found, open_status, sym same) (ap some done, stored)

  -- An escrow that is pending, released, refunded or resolved when it is read is left alone by both:
  -- neither returns an escrow, and both collections are as they were, whoever else is at work.
  pub settled_escrow :
      (ttl : ℕ) (lock : Bool) (id admin reason : Text) (resolution : Option EscrowResolution)
      (action : Option ExpiredEscrowAction) (now : ℕ)
      (others : ℕ → World is_valid_id escrows deliveries → World is_valid_id escrows deliveries)
      (e changed : Escrow) (w : World is_valid_id escrows deliveries)
      → escrows.find_by_id id w.escrow_state ≡ some e
      → (e.status ≡ pending) ⊎ (e.status ≡ released) ⊎ (e.status ≡ refunded) ⊎ (e.status ≡ resolved)
      → let r =
          resolve_escrow is_valid_id escrows deliveries ttl lock id admin resolution reason now
            others w in
        let t =
          retry_expired_escrow is_valid_id escrows deliveries ttl lock id admin action reason now
            others w in
        (r.1 ≡ w) × (t.1 ≡ w) × (r.0 ≢ some (ok changed)) × (t.0 ≢ some (ok changed))
  settled_escrow ttl lock id admin reason resolution action now others e changed w found status =
      let shut : is_resolvable e.status ≡ false = unfold is_resolvable in ground arith in
      let unexpired : is_expired e.status ≡ false = unfold is_expired in ground arith in
      let (r, r') =
        resolve_refuses ttl lock id admin reason resolution now others e changed w found shut in
      let (t, t') =
        retry_refuses ttl lock id admin reason action now others e changed w found unexpired in
      (r, t, r', t')
