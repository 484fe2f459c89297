-- ===== src/Delivery/Transitions.antt =====
-- The status of a delivery under `updateStatus`, with others at work between its read and its write.
use swift_chain_backend.Common.{
  ℕ, Bool, true, some, Text, text_eq, text_eq_iff, ◌≡◌, ◌≢◌, ◌⊎◌, ◌↔◌, refl, arith, Bool-cases,
  Option-cases, inl, inr, if◌then◌else◌,
}
use swift_chain_backend.Database.{Collection}
use swift_chain_backend.Delivery.{
  DeliveryStatus, pending, funded, assigned, in_progress, completed, cancelled, Delivery,
  milestone_by_status, AppError, bad_request, conflict, ok, err, same_status, is_permitted,
}
use swift_chain_backend.Delivery.Service.{
  Changed, has_status, set_status, proof_of_delivery_exists, commit_status, advance, update_status,
}

-- The lifecycle: created, funded, assigned, in progress, completed, or cancelled on the way.
pub data Edge : DeliveryStatus → DeliveryStatus → Type 0 where
  fund : Edge pending funded
  assign_unfunded : Edge pending assigned
  assign : Edge funded assigned
  begin : Edge assigned in_progress
  complete : Edge in_progress completed
  cancel_pending : Edge pending cancelled
  cancel_funded : Edge funded cancelled
  cancel_assigned : Edge assigned cancelled
  cancel_in_progress : Edge in_progress cancelled

ruleset edges = (
  fund, assign_unfunded, assign, begin, complete, cancel_pending, cancel_funded, cancel_assigned,
  cancel_in_progress,
)

Edge-is_permitted : (from to : DeliveryStatus) → is_permitted from to ≡ true → Edge from to
unfolding is_permitted
Edge-is_permitted from to h = grind (arith, edges)

is_permitted_of_Edge : {from to : DeliveryStatus} → Edge from to → is_permitted from to ≡ true
unfolding is_permitted
is_permitted_of_Edge fund = refl
is_permitted_of_Edge assign_unfunded = refl
is_permitted_of_Edge assign = refl
is_permitted_of_Edge begin = refl
is_permitted_of_Edge complete = refl
is_permitted_of_Edge cancel_pending = refl
is_permitted_of_Edge cancel_funded = refl
is_permitted_of_Edge cancel_assigned = refl
is_permitted_of_Edge cancel_in_progress = refl

-- The service accepts exactly the edges of the lifecycle.
pub is_permitted_iff : (from to : DeliveryStatus) → (is_permitted from to ≡ true) ↔ Edge from to
is_permitted_iff from to = (Edge-is_permitted from to, is_permitted_of_Edge)

pub same_status_iff : (a b : DeliveryStatus) → (same_status a b ≡ true) ↔ (a ≡ b)
unfolding same_status
same_status_iff a b = ground arith

Edge-apart : {from to : DeliveryStatus} → Edge from to → from ≢ to
Edge-apart fund = λ e. cc
Edge-apart assign_unfunded = λ e. cc
Edge-apart assign = λ e. cc
Edge-apart begin = λ e. cc
Edge-apart complete = λ e. cc
Edge-apart cancel_pending = λ e. cc
Edge-apart cancel_funded = λ e. cc
Edge-apart cancel_assigned = λ e. cc
Edge-apart cancel_in_progress = λ e. cc

module _ (is_valid_id : Text → Bool) (deliveries : Collection Delivery) where
  open deliveries use {State, find_by_id, update_where, find_by_id-update_where}

  -- What a successful `updateStatus` has done.
  pub record IsTransition (id : Text) (next : DeliveryStatus) (others : ℕ → State → State)
      (s : State) (c : Changed) (s' : State) : Type 0 where
    -- The delivery as it was read, and as it was when the write came.
    pub current : Delivery
    pub before : Delivery
    pub found : find_by_id id s ≡ some current
    pub edge : Edge current.status next
    pub still_there : find_by_id id (others 1 (others 0 s)) ≡ some before
    pub unchanged : before.status ≡ current.status
    pub proven :
        (next ≢ completed)
        ⊎ (proof_of_delivery_exists is_valid_id deliveries id (others 0 s) ≡ true)
    pub result : c.delivery ≡ record before { status = next }
    pub stored :
        (j : Text)
        → find_by_id j s'
          ≡ (if text_eq id j then some c.delivery else find_by_id j (others 1 (others 0 s)))
    pub raised :
        c.raised ≡ record { name = milestone_by_status next; from_status = some current.status }

  -- What a successful conditional write has done.
  pub record IsCommit (id : Text) (from to : DeliveryStatus) (s : State) (c : Changed) (s' : State)
      : Type 0 where
    pub before : Delivery
    pub there : find_by_id id s ≡ some before
    pub unchanged : before.status ≡ from
    pub result : c.delivery ≡ record before { status = to }
    pub stored :
        (j : Text) → find_by_id j s' ≡ (if text_eq id j then some c.delivery else find_by_id j s)
    pub raised : c.raised ≡ record { name = milestone_by_status to; from_status = some from }

  commit_status-IsCommit :
      (id : Text) (from to : DeliveryStatus) (s s' : State) (c : Changed)
      → commit_status is_valid_id deliveries id from to s ≡ (ok c, s')
      → IsCommit id from to s c s'
  unfolding commit_status has_status set_status
  commit_status-IsCommit id from to s s' c e = elim (Option-cases (find_by_id id s)) [
    | inl gone ↦ absurd (ground arith)
    | inr (before, there) ↦ record {
      before = before;
      there = there;
      unchanged = ground (arith, same_status_iff before.status from);
      result = ground arith;
      stored = λ j. ground (
        arith,
        find_by_id-update_where id j (has_status from) (set_status to) s,
        text_eq_iff id j,
      );
      raised = ground arith;
    }
  ]

  advance-IsTransition :
      (id : Text) (next : DeliveryStatus) (others : ℕ → State → State) (s s' : State)
      (current : Delivery) (c : Changed)
      → find_by_id id s ≡ some current
      → advance is_valid_id deliveries id next others current s ≡ (ok c, s')
      → IsTransition id next others s c s'
  unfolding advance
  advance-IsTransition id next others s s' current c found e =
      elim (Bool-cases (is_permitted current.status next)) [
        | inl allowed ↦
            let k =
              commit_status-IsCommit id current.status next (others 1 (others 0 s)) s' c
                (ground arith) in
            record {
              current = current;
              before = k.before;
              found = found;
              edge = Edge-is_permitted current.status next allowed;
              still_there = k.there;
              unchanged = k.unchanged;
              proven = elim (Bool-cases (same_status next completed)) [
                | inl done ↦ inr (ground arith)
                | inr other ↦ inl (ground (arith, same_status_iff next completed))
              ];
              result = k.result;
              stored = k.stored;
              raised = k.raised;
            }
        | inr refused ↦ absurd (ground arith)
      ]

  -- If `updateStatus` returns a delivery, the step from the status that was read is an edge of the
  -- lifecycle, a completion had its proof of delivery on record, and the delivery still had the
  -- status that was read when the write came. The write has set the status and nothing else of that
  -- document, no other document, and the milestone raised is that of the new status.
  pub update_status-IsTransition :
      (id : Text) (next : DeliveryStatus) (others : ℕ → State → State) (s s' : State) (c : Changed)
      → update_status is_valid_id deliveries id next others s ≡ (ok c, s')
      → IsTransition id next others s c s'
  unfolding update_status
  update_status-IsTransition id next others s s' c e = elim (Option-cases (find_by_id id s)) [
    | inl missing ↦ absurd (ground arith)
    | inr (current, found) ↦ advance-IsTransition id next others s s' current c found (ground arith)
  ]

  -- If `updateStatus` throws, it has written nothing: what the collection holds is what the others
  -- have made of it by then.
  pub update_status_error :
      (id : Text) (next : DeliveryStatus) (others : ℕ → State → State) (s s' : State) (x : AppError)
      → update_status is_valid_id deliveries id next others s ≡ (err x, s')
      → (s' ≡ s) ⊎ (s' ≡ others 0 s) ⊎ (s' ≡ others 1 (others 0 s))
  unfolding update_status advance commit_status
  update_status_error id next others s s' x e = ground arith

  moved_step :
      (id : Text) (current : Delivery) (next : DeliveryStatus) (s : State)
      → is_valid_id id ≡ true
      → find_by_id id s ≡ some current
      → Edge current.status next
      → (next ≡ completed → proof_of_delivery_exists is_valid_id deliveries id s ≡ true)
      → update_status is_valid_id deliveries id next (λ n t. t) s ≡ (
        ok (record {
          delivery = record current { status = next };
          raised = record { name = milestone_by_status next; from_status = some current.status };
        }),
        update_where id (has_status current.status) (set_status next) s,
      )
  unfolding update_status advance commit_status has_status set_status
  moved_step id current next s valid found edge proven = ground (
    arith,
    is_permitted_of_Edge edge,
    same_status_iff next completed,
    same_status_iff current.status current.status,
    Edge-apart edge,
    same_status_iff current.status next,
  )

  -- With no one else at work, `updateStatus` moves a delivery with a valid id along every edge of
  -- the lifecycle, to `completed` if its proof of delivery is on record: it stores the delivery with the
  -- new status, leaves every other document, and raises the milestone.
  pub update_status_moves :
      (id : Text) (current : Delivery) (next : DeliveryStatus) (s : State)
      → is_valid_id id ≡ true
      → find_by_id id s ≡ some current
      → Edge current.status next
      → (next ≡ completed → proof_of_delivery_exists is_valid_id deliveries id s ≡ true)
      → let r = update_status is_valid_id deliveries id next (λ n t. t) s in
        (r.0
          ≡ ok (record {
            delivery = record current { status = next };
            raised = record { name = milestone_by_status next; from_status = some current.status };
          }))
        × ((j : Text)
            → find_by_id j r.1
              ≡ (if text_eq id j then some (record current { status = next }) else find_by_id j s))
  update_status_moves id current next s valid found edge proven =
      let step = moved_step id current next s valid found edge proven in
      rw step (
        refl,
        λ j.
            unfold has_status set_status in
            ground (
              arith,
              find_by_id-update_where id j (has_status current.status) (set_status next) s,
              text_eq_iff id j,
              found,
              same_status_iff current.status current.status,
            ),
      )

  -- `updateStatus` refuses every request for a delivery that is completed or cancelled when it is read,
  -- and writes nothing, whoever else is at work.
  pub update_status_terminal :
      (id : Text) (current : Delivery) (next : DeliveryStatus) (others : ℕ → State → State)
      (s : State)
      → find_by_id id s ≡ some current
      → (current.status ≡ completed) ⊎ (current.status ≡ cancelled)
      → (x : AppError) × (update_status is_valid_id deliveries id next others s ≡ (err x, s))
  unfolding update_status advance is_permitted same_status
  update_status_terminal id current next others s found done = elim (Bool-cases (is_valid_id id)) [
    | inl valid ↦ elim (Bool-cases (same_status current.status next)) [
      | inl same ↦ (conflict, ground arith)
      | inr other ↦ (bad_request, ground arith)
    ]
    | inr invalid ↦ (bad_request, ground arith)
  ]
