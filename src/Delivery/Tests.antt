-- ===== src/Delivery/Tests.antt =====
-- Runs of the delivery service on an in-memory collection, and its theorems at concrete inputs.
use swift_chain_backend.Common.{
  ℕ, Bool, true, false, none, some, if◌then◌else◌, Text, text_eq, codes, [], ◌∷◌, ◌≡◌, ◌⊎◌, ◌↔◌,
  inl, refl, Dict, get, put,
}
use swift_chain_backend.Database.{in_memory, update_found}
use swift_chain_backend.Delivery.{
  DeliveryStatus, funded, assigned, in_progress, completed, cancelled, Delivery,
  milestone_by_status, AppError, conflict, ok, err, same_status, is_permitted, allowed_transitions,
}
use swift_chain_backend.Delivery.Service.{
  Changed, has_status, set_status, has_proof, is_locked, set_driver, soft_delete, undelete,
  same_person, proof_of_delivery_exists, commit_status, advance, update_status, save_driver,
  assign_with, assign_driver, save_with, archive, restore, may_list_milestones,
}
use swift_chain_backend.Delivery.Transitions.{
  complete, IsTransition, update_status-IsTransition, update_status_error, update_status_moves,
  update_status_terminal,
}
use swift_chain_backend.Delivery.Assignment.{IsParticipant, may_list_milestones_iff}
use swift_chain_backend.Delivery.Archive.{restore-archive}

machine : Unit {0}
unfolding update_status advance commit_status has_status set_status has_proof
    proof_of_delivery_exists is_permitted same_status allowed_transitions milestone_by_status get
    put text_eq update_found assign_driver assign_with save_driver set_driver is_locked same_person
    soft_delete undelete archive restore save_with
machine = tt

abbrev any_id : Text → Bool
any_id id = true

abbrev parcel : DeliveryStatus → Delivery
parcel status = record {
  status = status;
  driver_id = some (codes "driver");
  user_id = some (codes "alice");
  sender = none;
  escrow_amount = some 5;
  escrow_asset = none;
  fund_by = none;
  cancellation_reason = none;
  proof_of_delivery = some (codes "photo");
  is_deleted = false;
  deleted_at = none;
  deleted_by = none;
}

abbrev store : DeliveryStatus → Dict Delivery
store status = (codes "d1", parcel status) ∷ []

abbrev still : ℕ → Dict Delivery → Dict Delivery
still n s = s

-- Someone cancels the delivery in the meantime.
abbrev cancels : ℕ → Dict Delivery → Dict Delivery
cancels n s = store cancelled

abbrev finished : Changed
finished = record {
  delivery = parcel completed;
  raised = record { name = milestone_by_status completed; from_status = some in_progress };
}

completes :
    update_status any_id (in_memory Delivery) (codes "d1") completed still (store in_progress)
    ≡ (ok finished, store completed)
unfolding machine
completes = refl

refused :
    update_status any_id (in_memory Delivery) (codes "d1") completed cancels (store in_progress)
    ≡ (err conflict, store cancelled)
unfolding machine
refused = refl

update_status-IsTransition_example :
    IsTransition any_id
      (in_memory Delivery)
      (codes "d1")
      completed
      still
      (store in_progress)
      finished
      (store completed)
update_status-IsTransition_example =
    update_status-IsTransition any_id (in_memory Delivery) (codes "d1") completed still
      (store in_progress) (store completed) finished completes

update_status_error_example :
    (store cancelled ≡ store in_progress)
    ⊎ (store cancelled ≡ cancels 0 (store in_progress))
    ⊎ (store cancelled ≡ cancels 1 (cancels 0 (store in_progress)))
update_status_error_example =
    update_status_error any_id (in_memory Delivery) (codes "d1") completed cancels
      (store in_progress) (store cancelled) conflict refused

update_status_moves_example :
    let r =
      update_status any_id
        (in_memory Delivery)
        (codes "d1")
        completed
        (λ n t. t)
        (store in_progress) in
    (r.0 ≡ ok finished)
    × ((j : Text)
        → get j r.1 ≡ (
            if text_eq (codes "d1") j
            then some (record (parcel in_progress) { status = completed })
            else get j (store in_progress)))
update_status_moves_example =
    update_status_moves any_id (in_memory Delivery) (codes "d1") (parcel in_progress) completed
      (store in_progress) refl (unfold machine in refl) complete (λ e. unfold machine in refl)

update_status_terminal_example :
    (x : AppError) × (update_status any_id
        (in_memory Delivery)
        (codes "d1")
        assigned
        cancels
        (store completed)
      ≡ (err x, store completed))
update_status_terminal_example =
    update_status_terminal any_id (in_memory Delivery) (codes "d1") (parcel completed) assigned
      cancels (store completed) (unfold machine in refl) (inl refl)

abbrev with_driver : Delivery
with_driver = record (parcel assigned) { driver_id = some (codes "bob") }

abbrev assigned_now : Changed
assigned_now = record {
  delivery = with_driver;
  raised = record { name = milestone_by_status assigned; from_status = some funded };
}

may_list_milestones_iff_example :
    (may_list_milestones any_id
        (in_memory Delivery)
        (codes "d1")
        (codes "alice")
        false
        (store funded)
      ≡ ok tt)
    ↔ ((false ≡ true) ⊎ IsParticipant (codes "alice") (parcel funded))
may_list_milestones_iff_example =
    may_list_milestones_iff any_id (in_memory Delivery) (codes "d1") (codes "alice") false
      (store funded) (parcel funded) refl (unfold machine in refl)

restore-archive_example :
    let s' =
      (archive any_id
        (in_memory Delivery)
        (codes "d1")
        (some (codes "root"))
        10
        still
        (store funded)).1 in
    let s'' = (restore any_id (in_memory Delivery) (codes "d1") still s').1 in
    ((archive any_id
        (in_memory Delivery)
        (codes "d1")
        (some (codes "root"))
        10
        still
        (store funded)).0
      ≡ ok (soft_delete (some (codes "root")) 10 (parcel funded)))
    × (archive any_id (in_memory Delivery) (codes "d1") none 20 still s' ≡ (err conflict, s'))
    × ((restore any_id (in_memory Delivery) (codes "d1") still s').0
        ≡ ok (record (parcel funded) { is_deleted = false; deleted_at = none; deleted_by = none }))
    × ((j : Text)
        → get j s'' ≡ (
            if text_eq (codes "d1") j
            then some (record (parcel funded) {
              is_deleted = false;
              deleted_at = none;
              deleted_by = none;
            })
            else get j (store funded)))
restore-archive_example =
    restore-archive any_id (in_memory Delivery) (codes "d1") (some (codes "root")) none 10 20
      (store funded) (parcel funded) refl (unfold machine in refl) refl
