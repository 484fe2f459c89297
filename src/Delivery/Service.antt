-- ===== src/Delivery/Service.antt =====
-- src/services/delivery.service.ts: the operations that change a delivery's status or archive it.
-- The collection is an argument. `others` is what the rest of the system does to it while this
-- operation waits, `others n` at its n-th wait. `is_valid_id` is `Types.ObjectId.isValid`.
-- A milestone is part of the result: `emitMilestone` never throws and changes no delivery.
use swift_chain_backend.Common.{
  ℕ, Bool, true, false, not, Option, none, some, if◌then◌else◌, Text, text_eq, ◌||◌, ◌&&◌, any, [],
  ◌∷◌, is_empty,
}
use swift_chain_backend.Database.{Collection, matched}
use swift_chain_backend.Delivery.{
  DeliveryStatus, assigned, completed, cancelled, Delivery, Raised, milestone_by_status,
  bad_request, not_found, forbidden, conflict, unprocessable, Result, ok, err, same_status,
  is_permitted,
}
use swift_chain_backend.Escrow.{EscrowStatus, locked}

pub record Changed : Type 0 where
  pub delivery : Delivery
  pub raised : Raised

unfoldable pub has_status : DeliveryStatus → Delivery → Bool
has_status status d = same_status d.status status

unfoldable pub set_status : DeliveryStatus → Delivery → Delivery
set_status status d = record d { status = status }

unfoldable pub has_proof : Delivery → Bool
has_proof d = elim d.proof_of_delivery [ none ↦ false | some key ↦ true ]

unfoldable pub is_locked : EscrowStatus → Bool
is_locked locked = true
is_locked _ = false

unfoldable pub set_driver : Text → Delivery → Delivery
set_driver driver d = record d { driver_id = some driver; status = assigned }

-- `softDelete`: an absent or empty user leaves `deletedBy` alone.
unfoldable pub soft_delete : Option Text → ℕ → Delivery → Delivery
soft_delete none now d = record d { is_deleted = true; deleted_at = some now }
soft_delete (some user) now d = record d {
  is_deleted = true;
  deleted_at = some now;
  deleted_by = if is_empty user then d.deleted_by else some user;
}

unfoldable pub undelete : Delivery → Delivery
undelete d = record d { is_deleted = false; deleted_at = none; deleted_by = none }

unfoldable pub same_person : Text → Option Text → Bool
same_person id none = false
same_person id (some other) = text_eq other id

module _ (is_valid_id : Text → Bool) (deliveries : Collection Delivery) where
  open deliveries use {State, find_by_id, update_where}

  -- `assertProofOfDeliveryExists`: `true` if it does not throw.
  unfoldable pub proof_of_delivery_exists : Text → State → Bool
  unfolding has_proof
  proof_of_delivery_exists id s = elim (find_by_id id s) [ none ↦ false | some d ↦ has_proof d ]

  -- `transitionStatus` and what follows it.
  unfoldable pub commit_status :
      Text → DeliveryStatus → DeliveryStatus → State → Result Changed × State
  unfolding has_status set_status
  commit_status id from to s = elim (matched (has_status from) (set_status to) (find_by_id id s)) [
    | none ↦ (err conflict, s)
    | some updated ↦ (
      ok (record {
        delivery = updated;
        raised = record { name = milestone_by_status to; from_status = some from };
      }),
      update_where id (has_status from) (set_status to) s,
    )
  ]

  -- The guards on the delivery that was read, then the proof of delivery, then the write.
  unfoldable pub advance :
      Text → DeliveryStatus → (ℕ → State → State) → Delivery → State → Result Changed × State
  advance id next others current s =
      if same_status current.status next
      then (err conflict, s)
      else if not (is_permitted current.status next)
      then (err bad_request, s)
      else if same_status next completed && not (proof_of_delivery_exists id (others 0 s))
      then (err unprocessable, others 0 s)
      else commit_status id current.status next (others 1 (others 0 s))

  unfoldable pub update_status :
      Text → DeliveryStatus → (ℕ → State → State) → State → Result Changed × State
  update_status id next others s =
      if not (is_valid_id id) then (err bad_request, s) else elim (find_by_id id s) [
        | none ↦ (err not_found, s)
        | some current ↦ advance id next others current s
      ]

  -- `delivery.save()` writes the fields that changed, whatever the document holds by then; the document
  -- in memory, as it was read, is what is returned.
  unfoldable pub save_driver : Text → Text → Delivery → State → Result Changed × State
  unfolding set_driver
  save_driver id driver read s = elim (find_by_id id s) [
    | none ↦ (err not_found, s)
    | some stored ↦ (
      ok (record {
        delivery = set_driver driver read;
        raised = record { name = milestone_by_status assigned; from_status = some read.status };
      }),
      update_where id (λ d. true) (set_driver driver) s,
    )
  ]

  -- `escrow` is the status of the delivery's escrow record, if it has one, when it is read.
  unfoldable pub assign_with :
      Text
      → Text
      → Option EscrowStatus
      → (ℕ → State → State)
      → Delivery
      → State
      → Result Changed × State
  unfolding is_locked
  assign_with id driver escrow others delivery s =
      if same_status delivery.status completed || same_status delivery.status cancelled
      then (err conflict, s)
      else if same_status delivery.status assigned
      then (err conflict, s)
      else elim escrow [
        | none ↦ (err unprocessable, others 0 s)
        | some status ↦
            if not (is_locked status)
            then (err conflict, others 0 s)
            else save_driver id driver delivery (others 0 s)
      ]

  unfoldable pub assign_driver :
      Text → Text → Option EscrowStatus → (ℕ → State → State) → State → Result Changed × State
  assign_driver id driver escrow others s =
      if not (is_valid_id id) then (err bad_request, s) else elim (find_by_id id s) [
        | none ↦ (err not_found, s)
        | some delivery ↦ assign_with id driver escrow others delivery s
      ]

  -- The same for a change `f` of the document that was read.
  unfoldable pub save_with :
      Text → (Delivery → Delivery) → Delivery → State → Result Delivery × State
  save_with id f read s = elim (find_by_id id s) [
    | none ↦ (err not_found, s)
    | some stored ↦ (ok (f read), update_where id (λ d. true) f s)
  ]

  unfoldable pub archive :
      Text → Option Text → ℕ → (ℕ → State → State) → State → Result Delivery × State
  archive id user now others s =
      if not (is_valid_id id) then (err bad_request, s) else elim (find_by_id id s) [
        | none ↦ (err not_found, s)
        | some d ↦
            if d.is_deleted
            then (err conflict, s)
            else save_with id (soft_delete user now) d (others 0 s)
      ]

  unfoldable pub restore : Text → (ℕ → State → State) → State → Result Delivery × State
  restore id others s =
      if not (is_valid_id id) then (err bad_request, s) else elim (find_by_id id s) [
        | none ↦ (err not_found, s)
        | some d ↦
            if not d.is_deleted then (err conflict, s) else save_with id undelete d (others 0 s)
      ]

  -- Whether `listMilestones` lets the requester read the delivery's log.
  unfoldable pub may_list_milestones : Text → Text → Bool → State → Result (Unit {0})
  unfolding same_person
  may_list_milestones id requester is_admin s =
      if not (is_valid_id id) then err bad_request else elim (find_by_id id s) [
        | none ↦ err not_found
        | some d ↦
            if not is_admin
              && not (any (same_person requester) (d.user_id ∷ d.driver_id ∷ d.sender ∷ []))
            then err forbidden
            else ok tt
      ]
