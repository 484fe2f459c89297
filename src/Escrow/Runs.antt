-- ===== src/Escrow/Runs.antt =====
-- Releases and scans on collections in memory, and the theorems at concrete inputs.
use mathlib.Core.Option
use swift_chain_backend.Common.{
  ℕ, ◌+◌, ◌≤◌, List, Bool, true, false, none, some, if◌then◌else◌, Text, text_eq, codes, trim,
  trim_start, is_space, [], ◌∷◌, ◌==◌, ◌≡◌, refl, get, put, arith,
}
use swift_chain_backend.Database.{in_memory, update_found}
use swift_chain_backend.Database.Query.{memory_queries, select, add_if}
use swift_chain_backend.Delivery.{
  DeliveryStatus, Delivery, cancelled, ok, err, conflict, same_status,
}
use swift_chain_backend.Delivery.Service.{
  proof_of_delivery_exists, has_proof, is_locked, set_status, has_status,
}
use swift_chain_backend.Escrow.{
  locked, TransactionType, EscrowTransaction, Escrow, is_expired, is_expirable,
}
use swift_chain_backend.Escrow.Service.{World, save_and_apply, apply_if, apply_delivery_status}
use swift_chain_backend.Escrow.Release.{
  ReleaseInput, has_transaction, set_release, lock_resource, find_escrow, release_found,
  release_escrow,
}
use swift_chain_backend.Escrow.Once.{IsAdmitted, IsReleased, release_escrow_once}
use swift_chain_backend.Escrow.Expiry.{
  is_stale, set_expired, is_over, is_funding_window_lapsed, set_lapsed, flag_all, flagged,
  flag_candidates, cancel_delivery_for_expired_escrow, cancel_deliveries, scan_for_expired_escrows,
}
use swift_chain_backend.Escrow.Lapsed.{
  is_candidate, cancel_lapsed_funding_window, cancel_lapsed, scan_lapsed_funding_windows,
}
use swift_chain_backend.Escrow.Marked.{has_run_out, expired_by}
use swift_chain_backend.Escrow.CalledOff.{call_off}
use swift_chain_backend.Escrow.Settled.{scan_for_expired_escrows-AllMarked}
use swift_chain_backend.Escrow.Windows.{lapsed_by, scan_lapsed_funding_windows-AllMarked}

machine : Unit {0}
unfolding trim trim_start is_space get put text_eq update_found select add_if same_status
    proof_of_delivery_exists has_proof is_locked set_status has_status is_expired is_expirable
    save_and_apply apply_if apply_delivery_status has_transaction set_release lock_resource
    find_escrow release_found release_escrow is_stale set_expired is_over is_funding_window_lapsed
    set_lapsed flag_all flagged flag_candidates cancel_delivery_for_expired_escrow cancel_deliveries
    scan_for_expired_escrows is_candidate cancel_lapsed_funding_window cancel_lapsed
    scan_lapsed_funding_windows
machine = tt

-- An id begins with `e`, as in these runs; a contract's does not.
abbrev is_id : Text → Bool
is_id [] = false
is_id (c ∷ rest) = c == 101

abbrev escrow : Escrow
escrow = record {
  delivery = codes "d1";
  status = locked;
  locked_at = some 1;
  released_at = none;
  refunded_at = none;
  expires_at = some 5;
  expired_at = none;
  flagged_at = none;
  resolved_at = none;
  resolved_by = none;
  resolution_notes = none;
  contract_id = some (codes "C1");
  amount = 5;
  asset_code = none;
  asset_issuer = none;
  payer_address = none;
  flagged_ledger = none;
  transactions = [];
}

abbrev parcel : DeliveryStatus → Delivery
parcel status = record {
  status = status;
  driver_id = none;
  user_id = some (codes "alice");
  sender = none;
  escrow_amount = some 5;
  escrow_asset = none;
  fund_by = some 4;
  cancellation_reason = none;
  proof_of_delivery = some (codes "photo");
  is_deleted = false;
  deleted_at = none;
  deleted_by = none;
}

abbrev Here : Type 0
Here = World is_id (in_memory Escrow) (in_memory Delivery)

abbrev world : Here
world = record {
  escrow_state = (codes "e1", escrow) ∷ [];
  delivery_state = (codes "d1", parcel DeliveryStatus.in_progress) ∷ [];
}

abbrev alone : ℕ → Here → Here
alone n w = w

abbrev by_id : Text → ReleaseInput
by_id hash = record { escrow_id = codes "e1"; transaction_hash = hash; ledger = some 7 }

abbrev by_contract : Text → ReleaseInput
by_contract hash = record (by_id hash) { escrow_id = codes "C1" }

abbrev once : Escrow
once = set_release (by_id (codes "t1")) 9 escrow

release_escrow_once_example :
    let w' =
      (release_escrow is_id
        (in_memory Escrow)
        (in_memory Delivery)
        memory_queries
        true
        (by_id (codes "t1"))
        9
        alone
        world).1 in
    IsAdmitted is_id (in_memory Escrow) (in_memory Delivery) memory_queries escrow world
    × IsReleased is_id
        (in_memory Escrow)
        (in_memory Delivery)
        memory_queries
        (by_id (codes "t1"))
        9
        escrow
        w'
    × (release_escrow is_id
          (in_memory Escrow)
          (in_memory Delivery)
          memory_queries
          true
          (by_id (codes "t2"))
          12
          alone
          w'
        ≡ (some (if has_transaction (codes "t2") once then ok once else err conflict), w'))
release_escrow_once_example =
    release_escrow_once is_id (in_memory Escrow) (in_memory Delivery) memory_queries
      (by_id (codes "t1")) (by_id (codes "t2")) 9 12 alone escrow once world refl
      (unfold machine in refl) (unfold machine in refl) (unfold machine in refl) refl

-- Between the read and the save, the same escrow is released under its contract's id.
abbrev meanwhile : Here → Here
meanwhile w =
    (release_escrow is_id (in_memory Escrow) (in_memory Delivery) memory_queries true
      (by_contract (codes "t2")) 8 alone w).1

abbrev taken : Escrow
taken = set_release (by_contract (codes "t2")) 8 escrow

-- The two releases hold different locks.
two_locks : text_eq (lock_resource (codes "e1")) (lock_resource (codes "C1")) ≡ false
unfolding machine
two_locks = refl

abbrev paid_out : Text → ℕ → EscrowTransaction
paid_out hash time = record {
  hash = hash;
  type = TransactionType.release;
  ledger = some 7;
  recorded_at = time;
}

scan_for_expired_escrows-AllMarked_example :
    let w' =
      (scan_for_expired_escrows is_id
        (in_memory Escrow)
        (in_memory Delivery)
        memory_queries
        6
        (some 70)
        (λ n v. v)
        (λ n m v. v)
        world).1 in
    ((id : Text)
      → get id w'.escrow_state ≡ Option.map (expired_by 6 (some 70)) (get id world.escrow_state))
    × ((id : Text) (e : Escrow)
        → get id world.escrow_state ≡ some e
        → has_run_out 6 e.status e.expires_at ≡ true
        → get e.delivery w'.delivery_state
          ≡ Option.map call_off (get e.delivery world.delivery_state))
    × ((j : Text)
        → ((id : Text) (e : Escrow)
            → get id world.escrow_state ≡ some e
            → has_run_out 6 e.status e.expires_at ≡ true
            → text_eq e.delivery j ≡ false)
        → get j w'.delivery_state ≡ get j world.delivery_state)
scan_for_expired_escrows-AllMarked_example =
    scan_for_expired_escrows-AllMarked is_id (in_memory Escrow) (in_memory Delivery) memory_queries
      6 (some 70) world

-- The scan flags the escrow and cancels its delivery.
scanned :
    (scan_for_expired_escrows is_id
      (in_memory Escrow)
      (in_memory Delivery)
      memory_queries
      6
      (some 70)
      (λ n v. v)
      (λ n m v. v)
      world).1
    ≡ record {
      escrow_state = (codes "e1", set_expired 6 (some 70) escrow) ∷ [];
      delivery_state = (codes "d1", parcel cancelled) ∷ [];
    }
unfolding machine
scanned = refl

abbrev waiting_for_funds : List (Text × Delivery)
waiting_for_funds = (codes "d1", parcel DeliveryStatus.pending) ∷ []

not_back : (n : ℕ) → 6 ≤ 6 + n
not_back n = omega arith

scan_lapsed_funding_windows-AllMarked_example :
    let s' =
      (scan_lapsed_funding_windows
        (in_memory Delivery)
        memory_queries
        (codes "late")
        6
        (λ n. 6 + n)
        (λ m s. s)
        waiting_for_funds).1 in
    get (codes "d1") s'
    ≡ Option.map (lapsed_by 6 (codes "late")) (get (codes "d1") waiting_for_funds)
scan_lapsed_funding_windows-AllMarked_example =
    scan_lapsed_funding_windows-AllMarked (in_memory Delivery) memory_queries (codes "late") 6
      (λ n. 6 + n) waiting_for_funds not_back (codes "d1")
