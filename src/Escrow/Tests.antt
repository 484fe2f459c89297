-- ===== src/Escrow/Tests.antt =====
-- Resolutions on collections in memory, and the theorems at concrete inputs.
use swift_chain_backend.Common.{
  ℕ, Bool, true, false, none, some, Text, text_eq, codes, trim, trim_start, is_space, [], ◌∷◌, ◌≡◌,
  ◌≢◌, inl, inr, refl, get, put,
}
use swift_chain_backend.Database.{in_memory, update_found}
use swift_chain_backend.Delivery.{funded, in_progress, same_status, Delivery, ok}
use swift_chain_backend.Escrow.{EscrowStatus, locked, is_expirable, released, expired, Escrow}
use swift_chain_backend.Database.Query.{memory_queries, select, add_if}
use swift_chain_backend.Delivery.Service.{set_status}
use swift_chain_backend.Currency.{
  TokenSettings, is_asset_code, supported_issuer, validate_asset, same_asset_error,
}
use swift_chain_backend.Escrow.Release.{has_transaction}
use swift_chain_backend.Escrow.Expiry.{is_funding_window_lapsed}
use swift_chain_backend.Escrow.Lapsed.{cancel_lapsed_funding_window}
use swift_chain_backend.Escrow.Funding.{
  FundedInput, Payment, check_payment, set_funding, new_escrow, mark_funded, update_funded,
  create_funded, fund_found, fund_checked, fund_read, record_escrow_funded,
}
use swift_chain_backend.Escrow.Service.{
  compute_expires_at, release_to_driver, refund_to_payer, refund, World, resolve_escrow,
  retry_expired_escrow,
}
use swift_chain_backend.Escrow.Resolution.{
  resolved_as, retried_as, IsStored, resolve_escrow-IsStored, retry_expired_escrow-IsStored,
  settled_escrow,
}

machine : Unit {0}
unfolding get put text_eq update_found select add_if same_status has_transaction is_expirable
    is_funding_window_lapsed cancel_lapsed_funding_window trim trim_start is_space is_asset_code
    supported_issuer validate_asset same_asset_error check_payment set_funding new_escrow
    mark_funded update_funded create_funded fund_found fund_checked fund_read record_escrow_funded
    set_status compute_expires_at
machine = tt

abbrev any_id : Text → Bool
any_id id = true

abbrev escrow : EscrowStatus → Escrow
escrow status = record {
  delivery = codes "d1";
  status = status;
  locked_at = some 1;
  released_at = none;
  refunded_at = none;
  expires_at = some 5;
  expired_at = none;
  flagged_at = none;
  resolved_at = none;
  resolved_by = none;
  resolution_notes = none;
  contract_id = some (codes "C1");
  amount = 5;
  asset_code = none;
  asset_issuer = none;
  payer_address = none;
  flagged_ledger = none;
  transactions = [];
}

abbrev parcel : Delivery
parcel = record {
  status = funded;
  driver_id = none;
  user_id = some (codes "alice");
  sender = none;
  escrow_amount = some 5;
  escrow_asset = none;
  fund_by = none;
  cancellation_reason = none;
  proof_of_delivery = none;
  is_deleted = false;
  deleted_at = none;
  deleted_by = none;
}

abbrev world : EscrowStatus → World any_id (in_memory Escrow) (in_memory Delivery)
world status = record {
  escrow_state = (codes "e1", escrow status) ∷ [];
  delivery_state = (codes "d1", parcel) ∷ [];
}

abbrev alone :
    ℕ
    → World any_id (in_memory Escrow) (in_memory Delivery)
    → World any_id (in_memory Escrow) (in_memory Delivery)
alone n w = w

resolve_escrow-IsStored_example :
    let x =
      resolved_as 60 release_to_driver (codes "root") (codes "late") 9 (escrow expired, parcel) in
    let r =
      resolve_escrow any_id
        (in_memory Escrow)
        (in_memory Delivery)
        60
        true
        (codes "e1")
        (codes "root")
        (some release_to_driver)
        (codes "late")
        9
        alone
        (world expired) in
    (r.0 ≡ some (ok x.0))
    × IsStored any_id
        (in_memory Escrow)
        (in_memory Delivery)
        (codes "e1")
        (codes "d1")
        x
        (world expired)
        r.1
resolve_escrow-IsStored_example =
    resolve_escrow-IsStored any_id (in_memory Escrow) (in_memory Delivery) 60 (codes "e1")
      (codes "root") (codes "late") release_to_driver 9 (escrow expired) parcel (world expired) refl
      (unfold machine in refl) (inr (inr refl)) (unfold machine in refl)

retry_expired_escrow-IsStored_example :
    let x = retried_as 60 refund (codes "root") (codes "late") 9 (escrow expired, parcel) in
    let r =
      retry_expired_escrow any_id
        (in_memory Escrow)
        (in_memory Delivery)
        60
        true
        (codes "e1")
        (codes "root")
        (some refund)
        (codes "late")
        9
        alone
        (world expired) in
    (r.0 ≡ some (ok x.0))
    × IsStored any_id
        (in_memory Escrow)
        (in_memory Delivery)
        (codes "e1")
        (codes "d1")
        x
        (world expired)
        r.1
retry_expired_escrow-IsStored_example =
    retry_expired_escrow-IsStored any_id (in_memory Escrow) (in_memory Delivery) 60 (codes "e1")
      (codes "root") (codes "late") refund 9 (escrow expired) parcel (world expired) refl
      (unfold machine in refl) refl (unfold machine in refl)

settled_escrow_example :
    let r =
      resolve_escrow any_id
        (in_memory Escrow)
        (in_memory Delivery)
        60
        true
        (codes "e1")
        (codes "root")
        (some refund_to_payer)
        (codes "again")
        9
        alone
        (world released) in
    let t =
      retry_expired_escrow any_id
        (in_memory Escrow)
        (in_memory Delivery)
        60
        true
        (codes "e1")
        (codes "root")
        (some refund)
        (codes "again")
        9
        alone
        (world released) in
    (r.1 ≡ world released)
    × (t.1 ≡ world released)
    × (r.0 ≢ some (ok (escrow released)))
    × (t.0 ≢ some (ok (escrow released)))
settled_escrow_example =
    settled_escrow any_id (in_memory Escrow) (in_memory Delivery) 60 true (codes "e1")
      (codes "root") (codes "again") (some refund_to_payer) (some refund) 9 alone (escrow released)
      (escrow released) (world released) (unfold machine in refl) (inr (inl refl))

abbrev as_is : Text → Text
as_is t = t

abbrev no_tokens : TokenSettings
no_tokens = record { usdc_issuer = none; native_token_code = none; native_token_issuer = none }

abbrev topped_up : FundedInput
topped_up = record {
  contract_id = codes "C1";
  delivery_id = codes "d1";
  amount = some 5;
  asset = record { code = codes "XLM"; issuer = none };
  funded_by = some (codes "G1");
  transaction_hash = codes "t2";
  ledger = some 7;
}

abbrev on_the_way : World any_id (in_memory Escrow) (in_memory Delivery)
on_the_way = record {
  escrow_state = (codes "e1", escrow locked) ∷ [];
  delivery_state = (codes "d1", record parcel { status = in_progress }) ∷ [];
}

abbrev payment : Payment
payment = record { amount = 5; asset = record { code = codes "XLM"; issuer = none } }

abbrev relocked : Escrow
relocked = set_funding as_is 60 topped_up payment 9 (escrow locked) (escrow locked)

-- A delivery that is in progress goes back to funded.
sent_back :
    get
      (codes "d1")
      (record_escrow_funded any_id
        (in_memory Escrow)
        (in_memory Delivery)
        memory_queries
        memory_queries
        as_is
        no_tokens
        60
        (codes "late")
        topped_up
        (codes "e2")
        9
        alone
        on_the_way).1.delivery_state
    ≡ some parcel
unfolding machine
sent_back = refl
