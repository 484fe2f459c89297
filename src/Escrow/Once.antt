-- ===== src/Escrow/Once.antt =====
-- A release settles an escrow, and no later one settles it again.
use swift_chain_backend.Common.{
  ℕ, zero, suc, [], ◌∷◌, ◌++◌, trim, Bool, true, false, some, if◌then◌else◌, Text, text_eq_self,
  ◌≡◌, inl, inr, refl, sym, ap, ◌∙◌, arith, Option-cases,
}
use mathlib.Core.Option.{some-injective}
use swift_chain_backend.Database.{Collection}
use swift_chain_backend.Database.Query.{Queries}
use swift_chain_backend.Delivery.{completed, Delivery, conflict, ok, err}
use swift_chain_backend.Delivery.Service.{is_locked, proof_of_delivery_exists}
use swift_chain_backend.Escrow.{released, TransactionType, Escrow}
use swift_chain_backend.Escrow.Service.{World, save_and_apply}
use swift_chain_backend.Escrow.Resolution.{IsStored, saved}
use swift_chain_backend.Escrow.Release.{
  ReleaseInput, has_transaction, set_release, find_escrow, release_found, release_escrow,
}

module _ (is_valid_id : Text → Bool) (escrows : Collection Escrow)
    (deliveries : Collection Delivery) (queries : Queries escrows) where
  abbrev Here : Type 0
  Here = World is_valid_id escrows deliveries

  abbrev undisturbed : ℕ → Here → Here
  undisturbed n w = w

  proved :
      (id : Text) (w : Here)
      → proof_of_delivery_exists is_valid_id deliveries id w.delivery_state ≡ true
      → (d : Delivery) × (deliveries.find_by_id id w.delivery_state ≡ some d)
  unfolding proof_of_delivery_exists
  proved id w h = elim (Option-cases (deliveries.find_by_id id w.delivery_state)) [
    | inl gone ↦ absurd (ground arith)
    | inr found ↦ found
  ]

  by_id :
      (i : ReleaseInput) (now : ℕ) (others : ℕ → Here → Here) (e : Escrow) (w : Here)
      → is_valid_id i.escrow_id ≡ true
      → escrows.find_by_id i.escrow_id w.escrow_state ≡ some e
      → release_escrow is_valid_id escrows deliveries queries true i now others w ≡ (
          let (r, w') =
            release_found is_valid_id escrows deliveries queries i now others i.escrow_id e w in
          (some r, w'))
  unfolding release_escrow find_escrow
  by_id i now others e w valid there = rw (valid, there) refl

  -- What a release that was not a replay has found.
  pub record IsAdmitted (e : Escrow) (w : Here) : Type 0 where
    pub locked : is_locked e.status ≡ true
    pub proof : proof_of_delivery_exists is_valid_id deliveries e.delivery w.delivery_state ≡ true

  admitted :
      (i : ReleaseInput) (now : ℕ) (id : Text) (e x : Escrow) (w : Here)
      → has_transaction i.transaction_hash e ≡ false
      → (release_found is_valid_id escrows deliveries queries i now undisturbed id e w).0 ≡ ok x
      → IsAdmitted e w
  unfolding release_found
  admitted i now id e x w fresh done = record { locked = ground arith; proof = ground arith }

  admitted_step :
      (i : ReleaseInput) (now : ℕ) (id : Text) (e : Escrow) (w : Here)
      → has_transaction i.transaction_hash e ≡ false
      → IsAdmitted e w
      → release_found is_valid_id escrows deliveries queries i now undisturbed id e w
        ≡ save_and_apply is_valid_id escrows deliveries id
            (set_release i now)
            e
            (some completed)
            undisturbed
            w
  unfolding release_found
  admitted_step i now id e w fresh k = rw (fresh, k.locked, k.proof) refl

  again :
      (i : ReleaseInput) (now : ℕ) (others : ℕ → Here → Here) (id : Text) (e : Escrow) (w : Here)
      → is_locked e.status ≡ false
      → release_found is_valid_id escrows deliveries queries i now others id e w
        ≡ ((if has_transaction i.transaction_hash e then ok e else err conflict), w)
  unfolding release_found
  again i now others id e w over = ground arith

  -- What a release leaves: the escrow with its transaction, and its delivery completed.
  pub record IsReleased (i : ReleaseInput) (now : ℕ) (e : Escrow) (w' : Here) : Type 0 where
    pub stored :
        escrows.find_by_id i.escrow_id w'.escrow_state
        ≡ some (record e {
          status = released;
          released_at = some now;
          transactions =
              e.transactions
              ++ record {
                hash = trim i.transaction_hash;
                type = TransactionType.release;
                ledger = i.ledger;
                recorded_at = now;
              }
                ∷ [];
        })
    pub delivered :
        (d : Delivery) × (deliveries.find_by_id e.delivery w'.delivery_state ≡ some d)
        × (d.status ≡ completed)

  stored-IsReleased :
      (i : ReleaseInput) (now : ℕ) (e : Escrow) (d : Delivery) (w w' : Here)
      → IsStored is_valid_id escrows deliveries i.escrow_id e.delivery
          (set_release i now e, record d { status = completed })
          w
          w'
      → IsReleased i now e w'
  unfolding set_release
  stored-IsReleased i now e d w w' k = record {
    stored = ground (arith, k.escrow_stored i.escrow_id, text_eq_self i.escrow_id);
    delivered = (
      record d { status = completed },
      ground (arith, k.delivery_stored e.delivery, text_eq_self e.delivery),
      refl,
    );
  }

  release_status :
      (i : ReleaseInput) (now : ℕ) (e : Escrow) → is_locked (set_release i now e).status ≡ false
  unfolding set_release is_locked
  release_status i now e = refl

  repeated :
      (i j : ReleaseInput) (now later : ℕ) (others : ℕ → Here → Here) (e : Escrow) (w' : Here)
      → is_valid_id i.escrow_id ≡ true
      → IsReleased i now e w'
      → j.escrow_id ≡ i.escrow_id
      → release_escrow is_valid_id escrows deliveries queries true j later others w' ≡ (
        some (
            if has_transaction j.transaction_hash (set_release i now e)
            then ok (set_release i now e)
            else err conflict),
        w',
      )
  unfolding set_release
  repeated i j now later others e w' valid k same =
      let x = set_release i now e in
      by_id j later others x w' (ap is_valid_id same ∙ valid)
        (ap (λ id. escrows.find_by_id id w'.escrow_state) same ∙ k.stored)
      ∙ ap (λ p. (some p.0, p.1)) (again j later others j.escrow_id x w' (release_status i now e))

  -- A release by the escrow's id that succeeds, not as the replay of a recorded transaction, has found
  -- the escrow locked and the proof of delivery. Without interference it leaves the escrow released with
  -- the transaction, and its delivery completed. A release by the same id that finds them so changes
  -- nothing, whatever others do while it runs: it gives the escrow for a recorded transaction and a
  -- conflict for any other.
  pub release_escrow_once :
      (i j : ReleaseInput) (now later : ℕ) (others : ℕ → Here → Here) (e x : Escrow) (w : Here)
      → is_valid_id i.escrow_id ≡ true
      → escrows.find_by_id i.escrow_id w.escrow_state ≡ some e
      → has_transaction i.transaction_hash e ≡ false
      → (release_escrow is_valid_id escrows deliveries queries true i now undisturbed w).0
        ≡ some (ok x)
      → j.escrow_id ≡ i.escrow_id
      → let w' =
          (release_escrow is_valid_id escrows deliveries queries true i now undisturbed w).1 in
        IsAdmitted e w
        × IsReleased i now e w'
        × (release_escrow is_valid_id escrows deliveries queries true j later others w'
            ≡ (some (if has_transaction j.transaction_hash x then ok x else err conflict), w'))
  release_escrow_once i j now later others e x w valid there fresh done eq =
      let f = set_release i now in
      let id = i.escrow_id in
      let found_step = by_id i now undisturbed e w valid there in
      let k = admitted i now id e x w fresh (
        some-injective
          (release_found is_valid_id escrows deliveries queries i now undisturbed id e w).0 (ok x)
          (ap (λ p. p.0) (sym found_step) ∙ done)) in
      let (d, delivery) = proved e.delivery w k.proof in
      let (good, st) =
        saved is_valid_id escrows deliveries id f (some completed) e d w there delivery in
      let total = found_step ∙ ap (λ p. (some p.0, p.1)) (admitted_step i now id e w fresh k) in
      let s = save_and_apply is_valid_id escrows deliveries id f e (some completed) undisturbed w in
      let done_with : some (ok (f e)) ≡ some (ok x) =
        ap some (sym good) ∙ ap (λ p. p.0) (sym total) ∙ done in
      let same : f e ≡ x = ground (arith, done_with) in
      let released_now = stored-IsReleased i now e d w s.1 st in
      rw (total, sym same)
        (k, released_now, repeated i j now later others e s.1 valid released_now eq)

  -- The rest of the system at work before the save only.
  abbrev pub before_save : (Here → Here) → ℕ → Here → Here
  before_save m zero w = m w
  before_save m (suc n) w = w
