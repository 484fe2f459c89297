-- ===== src/Escrow/Funding.antt =====
-- src/services/escrow.service.ts: `recordEscrowFunded`. `others n` is what the rest of the system does
-- at the n-th wait. Amounts are numbers of the asset's smallest unit, and the input has none if its
-- amount is negative or not finite.
use mathlib.Core.Option
use swift_chain_backend.Common.{
  ℕ, zero, suc, ◌==◌, Bool, true, not, Option, none, some, [], ◌∷◌, ◌++◌, if◌then◌else◌, ◌&&◌, ◌||◌,
  Text, text_eq, trim,
}
use swift_chain_backend.Database.{Collection, matched, or_kept}
use swift_chain_backend.Database.Query.{Queries}
use swift_chain_backend.Delivery.{
  cancelled, funded, Asset, Delivery, bad_request, not_found, conflict, Result, ok, err,
  same_status,
}
use swift_chain_backend.Delivery.Service.{set_status}
use swift_chain_backend.Currency.{
  TokenSettings, xlm, same_text, is_truthy, validate_asset, same_asset_error,
}
use swift_chain_backend.Escrow.{locked, TransactionType, EscrowTransaction, Escrow, is_expirable}
use swift_chain_backend.Escrow.Service.{World, compute_expires_at}
use swift_chain_backend.Escrow.Release.{first, has_contract, has_transaction}
use swift_chain_backend.Escrow.Expiry.{is_funding_window_lapsed}
use swift_chain_backend.Escrow.Lapsed.{cancel_lapsed_funding_window}

-- `EscrowFundedInput`
pub record FundedInput : Type 0 where
  pub contract_id : Text
  pub delivery_id : Text
  pub amount : Option ℕ
  pub asset : Asset
  pub funded_by : Option Text
  pub transaction_hash : Text
  pub ledger : Option ℕ

-- What is paid, once it is checked.
pub record Payment : Type 0 where
  pub amount : ℕ
  pub asset : Asset

abbrev pub positive : Option ℕ → Option ℕ
positive none = none
positive (some zero) = none
positive (some (suc n)) = some (suc n)

abbrev pub is_agreed : Option ℕ → ℕ → Bool
is_agreed none amount = true
is_agreed (some agreed) amount = agreed == amount

abbrev pub or_xlm : Option Asset → Asset
or_xlm none = xlm
or_xlm (some a) = a

abbrev pub agreed_payment : Option ℕ → Asset → Option ℕ → Result Payment
agreed_payment agreed asset none = err bad_request
agreed_payment agreed asset (some amount) =
    let payment : Payment = record { amount = amount; asset = asset } in
    if is_agreed agreed amount then ok payment else err conflict

-- The guards on the asset and on the amount.
unfoldable pub check_payment :
    (Text → Text) → TokenSettings → FundedInput → Delivery → Result Payment
check_payment upper s i d = elim (validate_asset upper s i.asset) [
  | err e ↦ err e
  | ok asset ↦ elim (same_asset_error upper s (or_xlm d.escrow_asset) asset) [
    | some e ↦ err e
    | none ↦ agreed_payment d.escrow_amount asset (positive i.amount)
  ]
]

-- The delivery's escrow, if it has one, is the contract's.
abbrev pub is_own_contract : Text → Option (Text × Escrow) → Bool
is_own_contract contract none = true
is_own_contract contract (some (id, e)) = has_contract contract e

-- The contract's escrow is the delivery's and of the same asset.
abbrev pub is_same_escrow : Text → Asset → Escrow → Bool
is_same_escrow delivery asset e =
    text_eq e.delivery delivery
    && (not (is_truthy e.asset_code)
        || (same_text e.asset_code (some asset.code) && same_text e.asset_issuer asset.issuer))

abbrev pub fund_transaction : FundedInput → ℕ → EscrowTransaction
fund_transaction i now = record {
  hash = trim i.transaction_hash;
  type = TransactionType.fund;
  ledger = i.ledger;
  recorded_at = now;
}

abbrev or_now : ℕ → Option ℕ → ℕ
or_now now none = now
or_now now (some t) = t

-- An update leaves a field alone whose value is undefined.
unfoldable pub set_funding :
    (upper : Text → Text) (ttl_seconds : ℕ) → FundedInput → Payment → ℕ → Escrow → Escrow → Escrow
unfolding compute_expires_at
set_funding upper ttl i p now read e =
    let locked_at = or_now now read.locked_at in
    record e {
      amount = p.amount;
      asset_code = some (upper (trim p.asset.code));
      asset_issuer = or_kept (Option.map trim p.asset.issuer) e.asset_issuer;
      payer_address = or_kept (Option.map trim i.funded_by) e.payer_address;
      status = locked;
      locked_at = some locked_at;
      expires_at = some (compute_expires_at ttl locked_at);
      transactions = e.transactions ++ fund_transaction i now ∷ [];
    }

unfoldable pub new_escrow :
    (upper : Text → Text) (ttl_seconds : ℕ) → FundedInput → Payment → ℕ → Escrow
unfolding compute_expires_at
new_escrow upper ttl i p now = record {
  delivery = i.delivery_id;
  status = locked;
  locked_at = some now;
  released_at = none;
  refunded_at = none;
  expires_at = some (compute_expires_at ttl now);
  expired_at = none;
  flagged_at = none;
  resolved_at = none;
  resolved_by = none;
  resolution_notes = none;
  contract_id = some (trim i.contract_id);
  amount = p.amount;
  asset_code = some (upper (trim p.asset.code));
  asset_issuer = Option.map trim p.asset.issuer;
  payer_address = Option.map trim i.funded_by;
  flagged_ledger = none;
  transactions = fund_transaction i now ∷ [];
}

module _ (is_valid_id : Text → Bool) (escrows : Collection Escrow)
    (deliveries : Collection Delivery) (queries : Queries escrows)
    (delivery_queries : Queries deliveries) (upper : Text → Text) (tokens : TokenSettings) (ttl : ℕ)
    (reason : Text) where
  abbrev Here : Type 0
  Here = World is_valid_id escrows deliveries

  unfoldable pub mark_funded : Text → Delivery → Here → Here
  unfolding set_status
  mark_funded id d w = if same_status d.status funded then w else record w {
    delivery_state = deliveries.update_where id (λ x. true) (set_status funded) w.delivery_state;
  }

  unfoldable pub update_funded :
      FundedInput
      → Payment
      → ℕ
      → (ℕ → Here → Here)
      → Delivery
      → Text
      → Escrow
      → Here
      → Result Escrow × Here
  unfolding set_funding mark_funded
  update_funded i p now others d id e w =
      elim (matched (λ x. true) (set_funding upper ttl i p now e)
        (escrows.find_by_id id w.escrow_state)) [
          | none ↦ (err conflict, w)
          | some updated ↦ (
            ok updated,
            mark_funded i.delivery_id d (
                others 3 (record w {
                  escrow_state =
                      escrows.update_where id (λ x. true) (set_funding upper ttl i p now e)
                        w.escrow_state;
                })),
          )
        ]

  unfoldable pub create_funded :
      FundedInput
      → Payment
      → (new_id : Text) → ℕ
      → (ℕ → Here → Here)
      → Delivery
      → Here
      → Result Escrow × Here
  unfolding new_escrow mark_funded
  create_funded i p new_id now others d w = (
    ok (new_escrow upper ttl i p now),
    mark_funded i.delivery_id d (
        others 3 (record w {
          escrow_state = queries.create new_id (new_escrow upper ttl i p now) w.escrow_state;
        })),
  )

  -- The guards on the escrow of the contract, if there is one, and the writes.
  unfoldable pub fund_found :
      FundedInput
      → Payment
      → (new_id : Text) → ℕ
      → (ℕ → Here → Here)
      → Delivery
      → Option (Text × Escrow)
      → Here
      → Result Escrow × Here
  unfolding update_funded create_funded has_transaction
  fund_found i p new_id now others d none w = create_funded i p new_id now others d (others 2 w)
  fund_found i p new_id now others d (some (id, e)) w =
      if not (is_same_escrow i.delivery_id p.asset e)
      then (err conflict, w)
      else if has_transaction i.transaction_hash e
      then (ok e, w)
      else if not (is_expirable e.status)
      then (err conflict, w)
      else update_funded i p now others d id e (others 2 w)

  unfoldable pub fund_checked :
      FundedInput
      → (new_id : Text) → ℕ
      → (ℕ → Here → Here)
      → Delivery
      → Result Payment
      → Here
      → Result Escrow × Here
  unfolding fund_found
  fund_checked i new_id now others d (err e) w = (err e, w)
  fund_checked i new_id now others d (ok p) w =
      let w' = others 1 w in
      let own =
        first (queries.find_where (λ e. text_eq e.delivery i.delivery_id) w'.escrow_state) in
      let found = first (queries.find_where (has_contract (trim i.contract_id)) w.escrow_state) in
      if not (is_own_contract i.contract_id own)
      then (err conflict, w')
      else fund_found i p new_id now others d found w'

  -- The guards on the delivery as it was read.
  unfoldable pub fund_read :
      FundedInput → (new_id : Text) → ℕ → (ℕ → Here → Here) → Delivery → Here → Result Escrow × Here
  unfolding is_funding_window_lapsed cancel_lapsed_funding_window check_payment fund_checked
  fund_read i new_id now others d w =
      let cancelled_lapsed =
        (cancel_lapsed_funding_window deliveries delivery_queries i.delivery_id d reason now
          (λ s. s) w.delivery_state).1 in
      if same_status d.status cancelled
      then (err conflict, w)
      else if is_funding_window_lapsed now d
      then (err conflict, record w { delivery_state = cancelled_lapsed })
      else fund_checked i new_id now others d (check_payment upper tokens i d) w

  -- `recordEscrowFunded`; `new_id` is the id of an escrow that it creates.
  unfoldable pub record_escrow_funded :
      FundedInput → (new_id : Text) → ℕ → (ℕ → Here → Here) → Here → Result Escrow × Here
  unfolding fund_read
  record_escrow_funded i new_id now others w =
      if not (is_valid_id i.delivery_id)
      then (err bad_request, w)
      else elim (deliveries.find_by_id i.delivery_id w.delivery_state) [
        | none ↦ (err not_found, w)
        | some d ↦ fund_read i new_id now others d (others 0 w)
      ]
