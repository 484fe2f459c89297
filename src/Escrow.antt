-- ===== src/Escrow.antt =====
-- src/models/Escrow.ts: the lifecycle of an escrow. Of a document only the fields that the funding, the
-- resolution, the release and the expiry of an escrow read or write.
pub mod Service
pub mod Resolution
pub mod Release
pub mod Funding
pub mod Payments
pub mod Funded
pub mod Recorded
pub mod Once
pub mod Expiry
pub mod Lapsed
pub mod Listed
pub mod Marked
pub mod CalledOff
pub mod Settled
pub mod Windows
mod Tests
mod Runs
use swift_chain_backend.Common.{ℕ, Bool, true, false, Option, List, Text}

pub data EscrowStatus : Type 0 where
  pending locked released refunded disputed expired resolved : EscrowStatus

-- `EscrowTransactionType`
pub data TransactionType : Type 0 where
  fund release refund : TransactionType

pub record EscrowTransaction : Type 0 where
  pub hash : Text
  pub type : TransactionType
  pub ledger : Option ℕ
  pub recorded_at : ℕ

pub record Escrow : Type 0 where
  pub delivery : Text
  pub status : EscrowStatus
  pub locked_at : Option ℕ
  pub released_at : Option ℕ
  pub refunded_at : Option ℕ
  pub expires_at : Option ℕ
  pub expired_at : Option ℕ
  pub flagged_at : Option ℕ
  pub resolved_at : Option ℕ
  pub resolved_by : Option Text
  pub resolution_notes : Option Text
  pub contract_id : Option Text
  -- in the asset's smallest units
  pub amount : ℕ
  pub asset_code : Option Text
  pub asset_issuer : Option Text
  pub payer_address : Option Text
  pub flagged_ledger : Option ℕ
  pub transactions : List EscrowTransaction

unfoldable pub is_resolvable : EscrowStatus → Bool
is_resolvable locked = true
is_resolvable disputed = true
is_resolvable expired = true
is_resolvable _ = false

unfoldable pub is_expired : EscrowStatus → Bool
is_expired expired = true
is_expired _ = false

-- `EXPIRABLE_STATUSES`
unfoldable pub is_expirable : EscrowStatus → Bool
is_expirable pending = true
is_expirable locked = true
is_expirable _ = false
