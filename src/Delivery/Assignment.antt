-- ===== src/Delivery/Assignment.antt =====
-- Assigning a driver, and who may read a delivery's log.
use swift_chain_backend.Common.{
  ℕ, Bool, true, Option, none, some, Text, text_eq, text_eq_iff, ◌≡◌, ◌⊎◌, ◌↔◌, arith, Bool-cases,
  inl, inr, if◌then◌else◌, any, [], ◌∷◌,
}
use swift_chain_backend.Database.{Collection}
use swift_chain_backend.Delivery.{
  DeliveryStatus, pending, funded, assigned, in_progress, Delivery, milestone_by_status, ok,
}
use swift_chain_backend.Delivery.Service.{Changed, may_list_milestones, same_person}
use swift_chain_backend.Escrow.{EscrowStatus, locked}

-- The statuses that the guards let through.
pub data IsAssignable : DeliveryStatus → Type 0 where
  pending_delivery : IsAssignable pending
  funded_delivery : IsAssignable funded
  delivery_in_progress : IsAssignable in_progress

-- The caller is one of the delivery's people.
pub data IsParticipant (requester : Text) (d : Delivery) : Type 0 where
  as_customer : d.user_id ≡ some requester → IsParticipant requester d
  as_driver : d.driver_id ≡ some requester → IsParticipant requester d
  as_sender : d.sender ≡ some requester → IsParticipant requester d

same_person_iff : (id : Text) (o : Option Text) → (same_person id o ≡ true) ↔ (o ≡ some id)
unfolding same_person
same_person_iff id none = (λ h. cc, λ h. cc)
same_person_iff id (some other) =
    (λ h. ground (arith, text_eq_iff other id), λ h. ground (arith, text_eq_iff other id))

takes_part :
    (requester : Text) (d : Delivery)
    → IsParticipant requester d
    → any (same_person requester) (d.user_id ∷ d.driver_id ∷ d.sender ∷ []) ≡ true
takes_part requester d (as_customer e) = ground (arith, same_person_iff requester d.user_id)
takes_part requester d (as_driver e) = ground (arith, same_person_iff requester d.driver_id)
takes_part requester d (as_sender e) = ground (arith, same_person_iff requester d.sender)

IsParticipant-any :
    (requester : Text) (d : Delivery)
    → any (same_person requester) (d.user_id ∷ d.driver_id ∷ d.sender ∷ []) ≡ true
    → IsParticipant requester d
IsParticipant-any requester d h = elim (Bool-cases (same_person requester d.user_id)) [
  | inl customer ↦ as_customer ((same_person_iff requester d.user_id).0 customer)
  | inr other ↦ elim (Bool-cases (same_person requester d.driver_id)) [
    | inl driver ↦ as_driver ((same_person_iff requester d.driver_id).0 driver)
    | inr another ↦ as_sender ((same_person_iff requester d.sender).0 (ground arith))
  ]
]

module _ (is_valid_id : Text → Bool) (deliveries : Collection Delivery) where
  open deliveries use {State, find_by_id, update_where, find_by_id-update_where}

  -- What a successful `assignDriver` has done. Nothing is said of the status that the document had
  -- when the write came.
  pub record IsAssignment (id driver : Text) (escrow : Option EscrowStatus)
      (others : ℕ → State → State) (s : State) (c : Changed) (s' : State) : Type 0 where
    pub current : Delivery
    pub before : Delivery
    pub found : find_by_id id s ≡ some current
    pub allowed : IsAssignable current.status
    pub held : escrow ≡ some locked
    pub still_there : find_by_id id (others 0 s) ≡ some before
    pub result : c.delivery ≡ record current { driver_id = some driver; status = assigned }
    pub raised :
        c.raised ≡ record { name = milestone_by_status assigned; from_status = some current.status }
    pub stored :
        (j : Text)
        → find_by_id j s' ≡ (
            if text_eq id j
            then some (record before { driver_id = some driver; status = assigned })
            else find_by_id j (others 0 s))

  -- `listMilestones` lets the caller read the log of a delivery with a valid id exactly if the
  -- caller is an admin or the delivery's customer, driver or sender.
  pub may_list_milestones_iff :
      (id requester : Text) (is_admin : Bool) (s : State) (d : Delivery)
      → is_valid_id id ≡ true
      → find_by_id id s ≡ some d
      → (may_list_milestones is_valid_id deliveries id requester is_admin s ≡ ok tt)
        ↔ ((is_admin ≡ true) ⊎ IsParticipant requester d)
  unfolding may_list_milestones
  may_list_milestones_iff id requester is_admin s d valid found = (
    λ h. elim (Bool-cases is_admin) [
      | inl admin ↦ inl admin
      | inr plain ↦ inr (IsParticipant-any requester d (ground arith))
    ],
    λ h. elim h [
      | inl admin ↦ ground arith
      | inr part ↦ ground (arith, takes_part requester d part)
    ],
  )
