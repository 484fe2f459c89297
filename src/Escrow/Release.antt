-- ===== src/Escrow/Release.antt =====
-- src/services/escrow.service.ts: `releaseEscrow`. `lock` says whether the lock of the resource was
-- acquired, `others n` is what the rest of the system does at the n-th wait.
use swift_chain_backend.Common.{
  ℕ, ◌==◌, Bool, false, not, Option, none, some, List, [], ◌∷◌, ◌++◌, any, if◌then◌else◌, ◌||◌,
  Text, text_eq, codes, trim,
}
use swift_chain_backend.Database.{Collection}
use swift_chain_backend.Database.Query.{Queries}
use swift_chain_backend.Delivery.{
  completed, Delivery, bad_request, not_found, conflict, unprocessable, Result, ok, err,
}
use swift_chain_backend.Delivery.Service.{is_locked, proof_of_delivery_exists}
use swift_chain_backend.Escrow.{released, TransactionType, EscrowTransaction, Escrow}
use swift_chain_backend.Escrow.Service.{World, save_and_apply}

-- `ReleaseEscrowInput`; the model does not need `releasedBy`, which is only logged.
pub record ReleaseInput : Type 0 where
  pub escrow_id : Text
  pub transaction_hash : Text
  pub ledger : Option ℕ

unfoldable pub has_transaction : Text → Escrow → Bool
has_transaction hash e = any (λ t. text_eq t.hash hash) e.transactions

abbrev pub release_transaction : ReleaseInput → ℕ → EscrowTransaction
release_transaction i now = record {
  hash = trim i.transaction_hash;
  type = TransactionType.release;
  ledger = i.ledger;
  recorded_at = now;
}

unfoldable pub set_release : ReleaseInput → ℕ → Escrow → Escrow
set_release i now e = record e {
  status = released;
  released_at = some now;
  transactions = e.transactions ++ release_transaction i now ∷ [];
}

-- A contract's id begins with `C`.
abbrev pub starts_with_c : Text → Bool
starts_with_c [] = false
starts_with_c (c ∷ rest) = c == 67

abbrev pub has_contract : Text → Escrow → Bool
has_contract id e = elim e.contract_id [ none ↦ false | some c ↦ text_eq c id ]

abbrev pub first {ℓ} : {A : Type ℓ} → List A → Option A
first [] = none
first (x ∷ xs) = some x

abbrev pub keyed : Text → Option Escrow → Option (Text × Escrow)
keyed id none = none
keyed id (some e) = some (id, e)

unfoldable pub lock_resource : Text → Text
lock_resource id = codes "escrow:release:" ++ id

module _ (is_valid_id : Text → Bool) (escrows : Collection Escrow)
    (deliveries : Collection Delivery) (queries : Queries escrows) where
  abbrev Here : Type 0
  Here = World is_valid_id escrows deliveries

  -- The escrow by its id or by its contract's, with its id.
  unfoldable pub find_escrow : Text → Here → Option (Text × Escrow)
  find_escrow id w =
      if is_valid_id id
      then keyed id (escrows.find_by_id id w.escrow_state)
      else first (queries.find_where (has_contract (trim id)) w.escrow_state)

  -- The guards on the escrow that was read, and the writes.
  unfoldable pub release_found :
      ReleaseInput → ℕ → (ℕ → Here → Here) → Text → Escrow → Here → Result Escrow × Here
  unfolding has_transaction set_release
  release_found i now others id e w =
      if has_transaction i.transaction_hash e
      then (ok e, w)
      else if not (is_locked e.status)
      then (err conflict, w)
      else if not
          (proof_of_delivery_exists is_valid_id deliveries e.delivery (others 3 w).delivery_state)
      then (err unprocessable, others 3 w)
      else save_and_apply is_valid_id escrows deliveries id (set_release i now) e (some completed)
          others (others 0 (others 3 w))

  abbrev release_keyed :
      ReleaseInput → ℕ → (ℕ → Here → Here) → Option (Text × Escrow) → Here → Result Escrow × Here
  release_keyed i now others none w = (err not_found, w)
  release_keyed i now others (some (id, e)) w = release_found i now others id e w

  -- The outer `none` is the error of a lock that could not be acquired.
  unfoldable pub release_escrow :
      (lock : Bool) → ReleaseInput → ℕ → (ℕ → Here → Here) → Here → Option (Result Escrow) × Here
  unfolding release_found find_escrow
  release_escrow lock i now others w =
      if not (is_valid_id i.escrow_id || starts_with_c i.escrow_id)
      then (some (err bad_request), w)
      else if not lock
      then (none, w)
      else (let (r, w') = release_keyed i now others (find_escrow i.escrow_id w) w in (some r, w'))
