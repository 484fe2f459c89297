-- ===== src/Escrow/CalledOff.antt =====
-- The second half of the scan for expired escrows: the deliveries that it cancels.
use mathlib.Core.Option
use mathlib.Core.Option.{some-injective}
use swift_chain_backend.Common.{
  if◌then◌else◌, ap, ℕ, suc, Bool, true, false, not, none, some, List, [], ◌∷◌, any, Text, text_eq,
  text_eq_iff, All, ◌≡◌, inl, inr, refl, sym, ◌∙◌, arith, subst, Option-cases, Bool-cases,
}
use swift_chain_backend.Database.{Collection}
use swift_chain_backend.Database.Query.{Queries}
use swift_chain_backend.Database.Marks.{AreMarked, IsShut, AreMarked-update_where}
use swift_chain_backend.Delivery.{DeliveryStatus, completed, cancelled, Delivery, same_status}
use swift_chain_backend.Delivery.Service.{set_status}
use swift_chain_backend.Escrow.{Escrow}
use swift_chain_backend.Escrow.Service.{World}
use swift_chain_backend.Escrow.Expiry.{
  is_over, cancel_delivery_for_expired_escrow, cancel_deliveries,
}

-- What a delivery should be after its escrow has expired.
abbrev pub called_off : DeliveryStatus → DeliveryStatus
called_off completed = completed
called_off _ = cancelled

abbrev pub call_off : Delivery → Delivery
call_off d = record d { status = called_off d.status }

called_off_lem :
    (d : Delivery) → call_off d ≡ (if is_over d.status then d else set_status cancelled d)
unfolding is_over same_status set_status
called_off_lem d = ground arith

module _ (is_valid_id : Text → Bool) (escrows : Collection Escrow)
    (deliveries : Collection Delivery) (queries : Queries escrows) where
  abbrev Here : Type 0
  Here = World is_valid_id escrows deliveries

  abbrev pub is_open : Delivery → Bool
  is_open d = not (is_over d.status)

  pub cancelled_over : (d : Delivery) → is_open (set_status cancelled d) ≡ false
  unfolding is_over set_status same_status
  cancelled_over d = refl

  abbrev cancel_quietly : Escrow → Here → Here
  cancel_quietly e w =
      cancel_delivery_for_expired_escrow is_valid_id escrows deliveries queries e (λ v. v) w

  cancel_gone :
      (e : Escrow) (w : Here)
      → deliveries.find_by_id e.delivery w.delivery_state ≡ none
      → cancel_quietly e w ≡ w
  unfolding cancel_delivery_for_expired_escrow
  cancel_gone e w gone = ground arith

  cancel_over :
      (e : Escrow) (d : Delivery) (w : Here)
      → deliveries.find_by_id e.delivery w.delivery_state ≡ some d
      → is_over d.status ≡ true
      → cancel_quietly e w ≡ w
  unfolding cancel_delivery_for_expired_escrow
  cancel_over e d w there over = ground arith

  cancel_live :
      (e : Escrow) (d : Delivery) (w : Here)
      → deliveries.find_by_id e.delivery w.delivery_state ≡ some d
      → is_over d.status ≡ false
      → (cancel_quietly e w).delivery_state
        ≡ deliveries.update_where e.delivery (λ x. true) (set_status cancelled) w.delivery_state
  unfolding cancel_delivery_for_expired_escrow
  cancel_live e d w there live = ground arith

  cancel-AreMarked :
      (e : Escrow) (s : deliveries.State) (w : Here)
      → AreMarked deliveries is_open (set_status cancelled) s w.delivery_state
      → AreMarked deliveries is_open (set_status cancelled) s (cancel_quietly e w).delivery_state
  cancel-AreMarked e s w k =
      let Marked : deliveries.State → Type 0 =
        AreMarked deliveries is_open (set_status cancelled) s in
      elim (Option-cases (deliveries.find_by_id e.delivery w.delivery_state)) [
        | inl gone ↦ subst (λ v. Marked v.delivery_state) (sym (cancel_gone e w gone)) k
        | inr (d, there) ↦ elim (Bool-cases (is_over d.status)) [
          | inl over ↦ subst (λ v. Marked v.delivery_state) (sym (cancel_over e d w there over)) k
          | inr live ↦ subst Marked (sym (cancel_live e d w there live)) (
              AreMarked-update_where deliveries is_open (set_status cancelled) e.delivery
                (λ x. true) s w.delivery_state k (λ x found h. ground (arith, found, there, live))
                cancelled_over)
        ]
      ]

  cancel_same_escrows :
      (e : Escrow) (w : Here)
      → (cancel_delivery_for_expired_escrow is_valid_id escrows deliveries queries e
          (λ v. v)
          w).escrow_state
        ≡ w.escrow_state
  unfolding cancel_delivery_for_expired_escrow
  cancel_same_escrows e w = ground arith

  pub cancel_deliveries-AreMarked :
      (es : List (Text × Escrow)) (n : ℕ) (s : deliveries.State) (w : Here)
      → AreMarked deliveries is_open (set_status cancelled) s w.delivery_state
      → let w' = cancel_deliveries is_valid_id escrows deliveries queries es n (λ m k v. v) w in
        AreMarked deliveries is_open (set_status cancelled) s w'.delivery_state
        × (w'.escrow_state ≡ w.escrow_state)
  unfolding cancel_deliveries
  cancel_deliveries-AreMarked [] n s w k = (k, refl)
  cancel_deliveries-AreMarked ((id, e) ∷ es) n s w k =
      let w' =
        cancel_delivery_for_expired_escrow is_valid_id escrows deliveries queries e (λ v. v) w in
      let (marked, same) = cancel_deliveries-AreMarked es (suc n) s w' (cancel-AreMarked e s w k) in
      (marked, same ∙ cancel_same_escrows e w)

  cancel-keeps :
      (j : Text) (e : Escrow) (w : Here)
      → text_eq e.delivery j ≡ false
      → deliveries.find_by_id j (cancel_quietly e w).delivery_state
        ≡ deliveries.find_by_id j w.delivery_state
  cancel-keeps j e w other =
      elim (Option-cases (deliveries.find_by_id e.delivery w.delivery_state)) [
        | inl gone ↦ ap (λ v. deliveries.find_by_id j v.delivery_state) (cancel_gone e w gone)
        | inr (d, there) ↦ elim (Bool-cases (is_over d.status)) [
          | inl over ↦
              ap (λ v. deliveries.find_by_id j v.delivery_state) (cancel_over e d w there over)
          | inr live ↦
              ap (deliveries.find_by_id j) (cancel_live e d w there live)
              ∙ deliveries.find_by_id-update_where e.delivery j (λ x. true) (set_status cancelled)
                  w.delivery_state
              ∙ rw other refl
        ]
      ]

  pub cancel_deliveries-keeps :
      (j : Text) (es : List (Text × Escrow)) (n : ℕ) (w : Here)
      → All (λ x. text_eq x.1.delivery j ≡ false) es
      → deliveries.find_by_id j
          (cancel_deliveries is_valid_id escrows deliveries queries es n
            (λ m k v. v)
            w).delivery_state
        ≡ deliveries.find_by_id j w.delivery_state
  unfolding cancel_deliveries
  cancel_deliveries-keeps j [] n w h = refl
  cancel_deliveries-keeps j ((id, e) ∷ es) n w (other, later) =
      cancel_deliveries-keeps j es (suc n) (cancel_quietly e w) later ∙ cancel-keeps j e w other

  abbrev pub IsOff : Text → Here → Type 0
  IsOff j w = IsShut deliveries is_open (set_status cancelled) is_open j w.delivery_state

  cancel-IsOff : (e : Escrow) (w : Here) → IsOff e.delivery (cancel_quietly e w)
  cancel-IsOff e w = elim (Option-cases (deliveries.find_by_id e.delivery w.delivery_state)) [
    | inl gone ↦
        subst (IsOff e.delivery) (sym (cancel_gone e w gone)) (λ d k. absurd (ground arith))
    | inr (d, there) ↦ elim (Bool-cases (is_over d.status)) [
      | inl over ↦
          subst (IsOff e.delivery) (sym (cancel_over e d w there over))
            (λ x k. ground (arith, k, there, over))
      | inr live ↦
          subst (IsShut deliveries is_open (set_status cancelled) is_open e.delivery)
            (sym (cancel_live e d w there live))
            (λ x k. ground (
              arith,
              k,
              there,
              deliveries.find_by_id-update_where e.delivery e.delivery (λ x. true)
                  (set_status cancelled) w.delivery_state,
              text_eq_iff e.delivery e.delivery,
              cancelled_over d,
            ))
    ]
  ]

  cancel-keeps_IsOff : (j : Text) (e : Escrow) (w : Here) → IsOff j w → IsOff j (cancel_quietly e w)
  cancel-keeps_IsOff j e w k = elim (Bool-cases (text_eq e.delivery j)) [
    | inl same ↦
        subst (λ i. IsOff i (cancel_quietly e w)) ((text_eq_iff e.delivery j).0 same)
          (cancel-IsOff e w)
    | inr other ↦ λ d there. k d (sym (cancel-keeps j e w other) ∙ there)
  ]

  cancel_deliveries-keeps_IsOff :
      (j : Text) (es : List (Text × Escrow)) (n : ℕ) (w : Here)
      → IsOff j w
      → IsOff j (cancel_deliveries is_valid_id escrows deliveries queries es n (λ m k v. v) w)
  unfolding cancel_deliveries
  cancel_deliveries-keeps_IsOff j [] n w k = k
  cancel_deliveries-keeps_IsOff j ((id, e) ∷ es) n w k =
      cancel_deliveries-keeps_IsOff j es (suc n) (cancel_quietly e w) (cancel-keeps_IsOff j e w k)

  pub cancel_deliveries-IsOff :
      (id : Text) (e : Escrow) (s : escrows.State) (es : List (Text × Escrow)) (n : ℕ) (w : Here)
      → escrows.find_by_id id s ≡ some e
      → All (λ x. escrows.find_by_id x.0 s ≡ some x.1) es
      → any (λ x. text_eq x.0 id) es ≡ true
      → IsOff e.delivery
          (cancel_deliveries is_valid_id escrows deliveries queries es n (λ m k v. v) w)
  unfolding cancel_deliveries
  cancel_deliveries-IsOff id e s [] n w there h key = absurd (cc)
  cancel_deliveries-IsOff id e s ((j, x) ∷ es) n w there (here, later) key =
      elim (Bool-cases (text_eq j id)) [
        | inl same ↦
            let at_id : escrows.find_by_id id s ≡ some x =
              subst (λ i. escrows.find_by_id i s ≡ some x) ((text_eq_iff j id).0 same) here in
            let one : x.delivery ≡ e.delivery = ground (arith, at_id, there) in
            cancel_deliveries-keeps_IsOff e.delivery es (suc n) (cancel_quietly x w)
              (subst (λ i. IsOff i (cancel_quietly x w)) one (cancel-IsOff x w))
        | inr other ↦
            cancel_deliveries-IsOff id e s es (suc n) (cancel_quietly x w) there later
              (ground (arith, key, other))
      ]

  -- A delivery that may only have been cancelled, and is over now.
  pub IsOff-map :
      (j : Text) (w w' : Here)
      → AreMarked deliveries is_open (set_status cancelled) w.delivery_state w'.delivery_state
      → IsOff j w'
      → deliveries.find_by_id j w'.delivery_state
        ≡ Option.map call_off (deliveries.find_by_id j w.delivery_state)
  IsOff-map j w w' k off = elim (k j) [
    | inr m ↦ ground (arith, m.marked, m.found, m.fits, called_off_lem m.before)
    | inl same ↦ elim (Option-cases (deliveries.find_by_id j w.delivery_state)) [
      | inl gone ↦ ground (arith, same, gone)
      | inr (d, there) ↦ ground (arith, same, there, off d (same ∙ there), called_off_lem d)
    ]
  ]
