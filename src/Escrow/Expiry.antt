-- ===== src/Escrow/Expiry.antt =====
-- src/services/escrow.service.ts: the scans that the monitor runs. `others n` is what the rest of the
-- system does at the n-th wait, for each document of a loop in turn.
use swift_chain_backend.Common.{
  ℕ, suc, Bool, true, false, Option, none, some, List, [], ◌∷◌, map, filter, any, length,
  if◌then◌else◌, ◌&&◌, ◌||◌, ◌==◌, leb, Text, text_eq,
}
use swift_chain_backend.Database.{Collection, or_kept}
use swift_chain_backend.Database.Query.{Queries}
use swift_chain_backend.Delivery.{
  completed, cancelled, Delivery, DeliveryStatus, funding_window_lapsed, Raised, same_status,
}
use swift_chain_backend.Delivery.Service.{set_status}
use swift_chain_backend.Escrow.{expired, Escrow, is_expired, is_expirable}
use swift_chain_backend.Escrow.Service.{World}

abbrev pub is_past : ℕ → Option ℕ → Bool
is_past now none = false
is_past now (some t) = leb t now

-- The query of `scanForExpiredEscrows`.
unfoldable pub is_stale : ℕ → Escrow → Bool
is_stale now e = is_expirable e.status && is_past now e.expires_at

-- `updateMany` leaves `flaggedLedger` alone if the ledger is unknown.
unfoldable pub set_expired : ℕ → Option ℕ → Escrow → Escrow
set_expired now ledger e = record e {
  status = expired;
  expired_at = some now;
  flagged_at = some now;
  flagged_ledger = or_kept ledger e.flagged_ledger;
}

abbrev pub ids_of {ℓ} : {A : Type ℓ} → List (Text × A) → List Text
ids_of xs = map (λ x. x.0) xs

unfoldable pub is_over : DeliveryStatus → Bool
unfolding same_status
is_over status = same_status status completed || same_status status cancelled

-- `isFundingWindowLapsed`
unfoldable pub is_funding_window_lapsed : ℕ → Delivery → Bool
unfolding same_status
is_funding_window_lapsed now d =
    same_status d.status DeliveryStatus.pending && is_past now d.fund_by

unfoldable pub set_lapsed : Text → Delivery → Delivery
set_lapsed reason d = record d { status = cancelled; cancellation_reason = some reason }

abbrev pub lapse_raised : Delivery → Raised
lapse_raised d = record { name = funding_window_lapsed; from_status = some d.status }

module _ (is_valid_id : Text → Bool) (escrows : Collection Escrow)
    (deliveries : Collection Delivery) (queries : Queries escrows) where
  abbrev Here : Type 0
  Here = World is_valid_id escrows deliveries

  -- `updateMany` of the escrows with these ids, each still expirable.
  unfoldable pub flag_all : ℕ → Option ℕ → List Text → escrows.State → escrows.State
  unfolding set_expired
  flag_all now ledger [] s = s
  flag_all now ledger (id ∷ ids) s =
      flag_all now ledger ids
        (escrows.update_where id (λ e. is_expirable e.status) (set_expired now ledger) s)

  unfoldable pub cancel_delivery_for_expired_escrow : Escrow → (Here → Here) → Here → Here
  unfolding is_over set_status
  cancel_delivery_for_expired_escrow e others w =
      elim (deliveries.find_by_id e.delivery w.delivery_state) [
        | none ↦ w
        | some d ↦ if is_over d.status then w else record (others w) {
          delivery_state =
              deliveries.update_where e.delivery (λ x. true) (set_status cancelled)
                (others w).delivery_state;
        }
      ]

  unfoldable pub cancel_deliveries : List (Text × Escrow) → ℕ → (ℕ → ℕ → Here → Here) → Here → Here
  cancel_deliveries [] n others w = w
  cancel_deliveries ((id, e) ∷ es) n others w =
      cancel_deliveries es (suc n) others
        (cancel_delivery_for_expired_escrow e (others n 1) (others n 0 w))

  -- The escrows among these ids that are expired now.
  unfoldable pub flagged : List Text → escrows.State → List (Text × Escrow)
  flagged ids s =
      filter (λ x. any (text_eq x.0) ids) (queries.find_where (λ e. is_expired e.status) s)

  unfoldable pub flag_candidates : ℕ → Option ℕ → List Text → Here → Here
  unfolding flag_all
  flag_candidates now ledger ids w = record w {
    escrow_state = flag_all now ledger ids w.escrow_state;
  }

  -- `scanForExpiredEscrows` at `now`; `ledger` is unknown if the node is degraded or fails.
  unfoldable pub scan_for_expired_escrows :
      ℕ → Option ℕ → (ℕ → Here → Here) → (ℕ → ℕ → Here → Here) → Here → List (Text × Escrow) × Here
  unfolding is_stale flagged flag_candidates cancel_deliveries
  scan_for_expired_escrows now ledger others rounds w =
      let ids = ids_of (queries.find_where (is_stale now) w.escrow_state) in
      let w' = others 1 (flag_candidates now ledger ids (others 0 w)) in
      let found = flagged ids w'.escrow_state in
      if length ids == 0 then ([], w) else (found, cancel_deliveries found 0 rounds w')
