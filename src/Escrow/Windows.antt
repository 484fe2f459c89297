-- ===== src/Escrow/Windows.antt =====
-- What the scan for lapsed funding windows changes, and what it leaves to a faster writer.
use mathlib.Core.Option
use swift_chain_backend.Common.{
  ℕ, suc, Option, leb, if◌then◌else◌, Bool, true, false, none, some, List, [], ◌∷◌, ◌≤◌, any, Text,
  text_eq, text_eq_iff, All, ◌≡◌, inl, inr, refl, sym, ap, ◌∙◌, arith, subst, Bool-cases,
}
use swift_chain_backend.Database.{Collection, matched}
use swift_chain_backend.Database.Query.{Queries}
use swift_chain_backend.Database.Marks.{
  AreMarked, IsShut, AreMarked-refl, still_fits, AreMarked-update_where, update_where-IsShut,
  update_where-keeps_IsShut, shut_changed, AreMarked-AllMarked, AllMarked-map,
}
use swift_chain_backend.Delivery.{DeliveryStatus, cancelled, Delivery, same_status}
use swift_chain_backend.Delivery.Service.{has_status}
use swift_chain_backend.Delivery.Transitions.{same_status_iff}
use swift_chain_backend.Escrow.Expiry.{is_funding_window_lapsed, set_lapsed}
use swift_chain_backend.Escrow.Lapsed.{
  is_candidate, cancellation, cancel_lapsed_funding_window, cancel_lapsed,
  scan_lapsed_funding_windows,
}

lapsed_pending :
    (now : ℕ) (d : Delivery)
    → is_funding_window_lapsed now d ≡ true
    → d.status ≡ DeliveryStatus.pending
unfolding is_funding_window_lapsed
lapsed_pending now d h = (same_status_iff d.status DeliveryStatus.pending).0 (ground arith)

lapsed_shut :
    (now : ℕ) (reason : Text) (d x : Delivery)
    → is_funding_window_lapsed now d ≡ true
    → has_status d.status (set_lapsed reason x) ≡ false
unfolding has_status set_lapsed same_status
lapsed_shut now reason d x h = rw (lapsed_pending now d h) refl

candidate_once :
    (now : ℕ) (reason : Text) (x : Delivery) → is_candidate now (set_lapsed reason x) ≡ false
unfolding is_candidate is_funding_window_lapsed set_lapsed same_status
candidate_once now reason x = refl

-- A deadline has passed for a delivery that is pending and not archived.
abbrev pub is_window_over : ℕ → DeliveryStatus → Bool → Option ℕ → Bool
is_window_over now DeliveryStatus.pending false (some deadline) = leb deadline now
is_window_over now _ _ _ = false

-- What a delivery should be after the scan.
abbrev pub lapsed_by : ℕ → Text → Delivery → Delivery
lapsed_by now reason d =
    if is_window_over now d.status d.is_deleted d.fund_by
    then record d { status = cancelled; cancellation_reason = some reason }
    else d

lapsed_by_lem :
    (now : ℕ) (reason : Text) (d : Delivery)
    → lapsed_by now reason d ≡ (if is_candidate now d then set_lapsed reason d else d)
unfolding is_candidate is_funding_window_lapsed set_lapsed same_status
lapsed_by_lem now reason d = ground arith

module _ (deliveries : Collection Delivery) (queries : Queries deliveries) where
  open deliveries use {State, find_by_id, update_where}

  abbrev quietly : State → State
  quietly s = s

  window_open :
      (id : Text) (d : Delivery) (reason : Text) (now : ℕ) (others : State → State) (s : State)
      → is_funding_window_lapsed now d ≡ false
      → cancel_lapsed_funding_window deliveries queries id d reason now others s
        ≡ (cancellation d none, s)
  unfolding cancel_lapsed_funding_window
  window_open id d reason now others s h = rw h refl

  window_lapsed :
      (id : Text) (d : Delivery) (reason : Text) (now : ℕ) (others : State → State) (s : State)
      → is_funding_window_lapsed now d ≡ true
      → cancel_lapsed_funding_window deliveries queries id d reason now others s ≡ (
        cancellation d
            (matched (has_status d.status) (set_lapsed reason) (find_by_id id (others s))),
        update_where id (has_status d.status) (set_lapsed reason) (others s),
      )
  unfolding cancel_lapsed_funding_window
  window_lapsed id d reason now others s h = rw h refl

  -- If another writer, such as a funding event, has moved the delivery on between its read and the
  -- update, the cancellation changes nothing, gives the delivery as it was read and raises no milestone.
  pub cancel_lapsed_funding_window-loses :
      (id : Text) (d d' : Delivery) (reason : Text) (now : ℕ) (others : State → State) (s : State)
      → find_by_id id (others s) ≡ some d'
      → has_status d.status d' ≡ false
      → is_funding_window_lapsed now d ≡ true
      → cancel_lapsed_funding_window deliveries queries id d reason now others s
        ≡ (cancellation d none, others s)
  cancel_lapsed_funding_window-loses id d d' reason now others s there moved lapsed =
      let missed : matched (has_status d.status) (set_lapsed reason) (find_by_id id (others s))
          ≡ none =
        rw (there, moved) refl in
      window_lapsed id d reason now others s lapsed ∙ λ i. (
        cancellation d (missed i),
        deliveries.update_where_unmatched id (has_status d.status) (set_lapsed reason) (others s)
            missed i,
      )

  cancel-AreMarked :
      (id : Text) (d : Delivery) (reason : Text) (now clock : ℕ) (s s' : State)
      → find_by_id id s ≡ some d
      → is_candidate now d ≡ true
      → AreMarked deliveries (is_candidate now) (set_lapsed reason) s s'
      → AreMarked deliveries
          (is_candidate now)
          (set_lapsed reason)
          s
          (cancel_lapsed_funding_window deliveries queries id d reason clock quietly s').1
  cancel-AreMarked id d reason now clock s s' there fits k =
      let p = is_candidate now in
      let f = set_lapsed reason in
      let g = has_status d.status in
      elim (Bool-cases (is_funding_window_lapsed clock d)) [
        | inr early ↦ rw (window_open id d reason clock quietly s' early) k
        | inl late ↦ rw (window_lapsed id d reason clock quietly s' late) (
            AreMarked-update_where deliveries p f id g s s' k
              (λ x found opened.
                still_fits deliveries p f id d x g s s' k there fits
                  (λ y. lapsed_shut clock reason d y late) found opened)
              (candidate_once now reason))
      ]

  cancel_lapsed-AreMarked :
      (reason : Text) (xs : List (Text × Delivery)) (n now : ℕ) (clock : ℕ → ℕ) (s s' : State)
      → All (λ x. (find_by_id x.0 s ≡ some x.1) × (is_candidate now x.1 ≡ true)) xs
      → AreMarked deliveries (is_candidate now) (set_lapsed reason) s s'
      → AreMarked deliveries
          (is_candidate now)
          (set_lapsed reason)
          s
          (cancel_lapsed deliveries queries reason xs n clock (λ m. quietly) s').1
  unfolding cancel_lapsed
  cancel_lapsed-AreMarked reason [] n now clock s s' h k = k
  cancel_lapsed-AreMarked reason ((id, d) ∷ xs) n now clock s s' (here, later) k =
      cancel_lapsed-AreMarked reason xs (suc n) now clock s
        (cancel_lapsed_funding_window deliveries queries id d reason (clock n) quietly s').1 later
        (cancel-AreMarked id d reason now (clock n) s s' here.0 here.1 k)

  abbrev is_pending : Delivery → Bool
  is_pending = has_status DeliveryStatus.pending

  pending_shut : (reason : Text) (x : Delivery) → is_pending (set_lapsed reason x) ≡ false
  unfolding has_status set_lapsed same_status
  pending_shut reason x = refl

  candidate_lapsed :
      (now later : ℕ) (d : Delivery)
      → is_candidate now d ≡ true
      → now ≤ later
      → is_funding_window_lapsed later d ≡ true
  unfolding is_candidate is_funding_window_lapsed
  candidate_lapsed now later d h le = ground arith

  candidate_pending : (now : ℕ) (d : Delivery) → is_candidate now d ≡ true → is_pending d ≡ true
  unfolding is_candidate is_funding_window_lapsed has_status
  candidate_pending now d h = ground arith

  updated :
      (id : Text) (d : Delivery) (reason : Text) (now later : ℕ) (s : State)
      → is_candidate now d ≡ true
      → now ≤ later
      → (cancel_lapsed_funding_window deliveries queries id d reason later quietly s).1
        ≡ update_where id is_pending (set_lapsed reason) s
  updated id d reason now later s fits le =
      let late = candidate_lapsed now later d fits le in
      ap (λ r. r.1) (window_lapsed id d reason later quietly s late)
      ∙ ap (λ v. update_where id (has_status v) (set_lapsed reason) s) (lapsed_pending later d late)

  cancel_lapsed-keeps_IsShut :
      (reason : Text) (id : Text) (xs : List (Text × Delivery)) (n now : ℕ) (clock : ℕ → ℕ)
      (s : State)
      → ((m : ℕ) → now ≤ clock m)
      → All (λ x. is_candidate now x.1 ≡ true) xs
      → IsShut deliveries (is_candidate now) (set_lapsed reason) is_pending id s
      → IsShut deliveries
          (is_candidate now)
          (set_lapsed reason)
          is_pending
          id
          (cancel_lapsed deliveries queries reason xs n clock (λ m. quietly) s).1
  unfolding cancel_lapsed
  cancel_lapsed-keeps_IsShut reason id [] n now clock s le h k = k
  cancel_lapsed-keeps_IsShut reason id ((j, d) ∷ xs) n now clock s le (here, later) k =
      let f = set_lapsed reason in
      cancel_lapsed-keeps_IsShut reason id xs (suc n) now clock
        (cancel_lapsed_funding_window deliveries queries j d reason (clock n) quietly s).1 le later
        (subst (IsShut deliveries (is_candidate now) f is_pending id)
          (sym (updated j d reason now (clock n) s here (le n)))
          (update_where-keeps_IsShut deliveries (is_candidate now) f id j is_pending s
            (pending_shut reason) k))

  cancel_lapsed-IsShut :
      (reason : Text) (id : Text) (xs : List (Text × Delivery)) (n now : ℕ) (clock : ℕ → ℕ)
      (s : State)
      → ((m : ℕ) → now ≤ clock m)
      → All (λ x. is_candidate now x.1 ≡ true) xs
      → any (λ x. text_eq x.0 id) xs ≡ true
      → IsShut deliveries
          (is_candidate now)
          (set_lapsed reason)
          is_pending
          id
          (cancel_lapsed deliveries queries reason xs n clock (λ m. quietly) s).1
  unfolding cancel_lapsed
  cancel_lapsed-IsShut reason id [] n now clock s le h key = absurd (cc)
  cancel_lapsed-IsShut reason id ((j, d) ∷ xs) n now clock s le (here, later) key =
      let f = set_lapsed reason in
      let s' = (cancel_lapsed_funding_window deliveries queries j d reason (clock n) quietly s).1 in
      elim (Bool-cases (text_eq j id)) [
        | inl same ↦ cancel_lapsed-keeps_IsShut reason id xs (suc n) now clock s' le later (
            subst (λ x. IsShut deliveries (is_candidate now) f is_pending x s')
              ((text_eq_iff j id).0 same)
              (subst (IsShut deliveries (is_candidate now) f is_pending j)
                (sym (updated j d reason now (clock n) s here (le n)))
                (update_where-IsShut deliveries (is_candidate now) f j is_pending s
                  (pending_shut reason))))
        | inr other ↦
            cancel_lapsed-IsShut reason id xs (suc n) now clock s' le later
              (ground (arith, key, other))
      ]

  only_fits :
      (now : ℕ) (s : State) (xs : List (Text × Delivery))
      → All (λ x. (find_by_id x.0 s ≡ some x.1) × (is_candidate now x.1 ≡ true)) xs
      → All (λ x. is_candidate now x.1 ≡ true) xs
  only_fits now s [] h = tt
  only_fits now s (x ∷ xs) (here, later) = (here.1, only_fits now s xs later)

  -- Without interference, and if the clock does not go back, the scan for lapsed funding windows
  -- cancels, with the reason, the deliveries that are pending and not archived and whose deadline has
  -- passed, and leaves every other delivery as it was.
  pub scan_lapsed_funding_windows-AllMarked :
      (reason : Text) (now : ℕ) (clock : ℕ → ℕ) (s : State)
      → ((m : ℕ) → now ≤ clock m)
      → let s' =
          (scan_lapsed_funding_windows deliveries queries reason now clock (λ m. quietly) s).1 in
        (id : Text) → find_by_id id s' ≡ Option.map (lapsed_by now reason) (find_by_id id s)
  unfolding scan_lapsed_funding_windows
  scan_lapsed_funding_windows-AllMarked reason now clock s le =
      let p = is_candidate now in
      let f = set_lapsed reason in
      let xs = queries.find_where p s in
      let found = queries.find_where_found p s in
      let s' = (cancel_lapsed deliveries queries reason xs 0 clock (λ m. quietly) s).1 in
      let marked : AreMarked deliveries p f s s' =
        cancel_lapsed-AreMarked reason xs 0 now clock s s found (AreMarked-refl deliveries p f s) in
      AllMarked-map deliveries p f (lapsed_by now reason) s s' (lapsed_by_lem now reason) (
        AreMarked-AllMarked deliveries p f s s' marked (λ id e there fits.
          shut_changed deliveries p f id e is_pending s s' marked
            (cancel_lapsed-IsShut reason id xs 0 now clock s le (only_fits now s xs found)
              (queries.find_where_all p id e s there fits))
            there (candidate_pending now e fits)))
