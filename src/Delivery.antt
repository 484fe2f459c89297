-- ===== src/Delivery.antt =====
-- src/models/Delivery.ts, src/models/DeliveryEvent.ts and the delivery service's transitions,
-- src/services/delivery.service.ts. Of a document only the fields that the services read or write.
pub mod Service
pub mod Transitions
pub mod Assignment
pub mod Archive
mod Tests
use swift_chain_backend.Common.{
  ℕ, Bool, true, false, Option, none, some, List, [], ◌∷◌, any, if◌then◌else◌, Text, text_eq, ◌||◌,
  ◌≡◌,
}

pub data DeliveryStatus : Type 0 where
  pending funded assigned in_progress completed cancelled : DeliveryStatus

-- src/types/asset.ts
pub record Asset : Type 0 where
  pub code : Text
  pub issuer : Option Text

pub record Delivery : Type 0 where
  pub status : DeliveryStatus
  pub driver_id : Option Text
  pub user_id : Option Text
  pub sender : Option Text
  pub escrow_amount : Option ℕ
  pub escrow_asset : Option Asset
  pub fund_by : Option ℕ
  pub cancellation_reason : Option Text
  pub proof_of_delivery : Option Text
  pub is_deleted : Bool
  pub deleted_at : Option ℕ
  pub deleted_by : Option Text

pub data Milestone : Type 0 where
  created was_funded was_assigned progressed was_completed was_cancelled funding_window_lapsed :
      Milestone

-- The milestone that a change raises, with the status that the delivery left.
pub record Raised : Type 0 where
  pub name : Milestone
  pub from_status : Option DeliveryStatus

unfoldable pub milestone_by_status : DeliveryStatus → Milestone
milestone_by_status pending = created
milestone_by_status funded = was_funded
milestone_by_status assigned = was_assigned
milestone_by_status in_progress = progressed
milestone_by_status completed = was_completed
milestone_by_status cancelled = was_cancelled

-- The HTTP status of the `AppError` that a service throws.
pub data AppError : Type 0 where
  bad_request not_found forbidden conflict unprocessable : AppError

pub data Result {ℓ} (A : Type ℓ) : Type ℓ where
  ok : A → Result A
  err : AppError → Result A

unfoldable pub same_status : DeliveryStatus → DeliveryStatus → Bool
same_status pending pending = true
same_status funded funded = true
same_status assigned assigned = true
same_status in_progress in_progress = true
same_status completed completed = true
same_status cancelled cancelled = true
same_status _ _ = false

unfoldable pub allowed_transitions : DeliveryStatus → List DeliveryStatus
allowed_transitions pending = funded ∷ assigned ∷ cancelled ∷ []
allowed_transitions funded = assigned ∷ cancelled ∷ []
allowed_transitions assigned = in_progress ∷ cancelled ∷ []
allowed_transitions in_progress = completed ∷ cancelled ∷ []
allowed_transitions completed = []
allowed_transitions cancelled = []

unfoldable pub is_permitted : DeliveryStatus → DeliveryStatus → Bool
unfolding same_status allowed_transitions
is_permitted from to = any (same_status to) (allowed_transitions from)
