-- ===== src/Escrow/Funded.antt =====
-- What a recorded funding has checked, and what it leaves.
use swift_chain_backend.Common.{
  ℕ, Bool, true, false, Option, none, some, List, [], ◌∷◌, ◌++◌, any, All, Text, trim, text_eq,
  text_eq_self, ◌≡◌, ◌⊎◌, inl, inr, refl, sym, ap, ◌∙◌, arith, subst, Bool-cases,
}
use mathlib.Core.Option.{some-injective}
use swift_chain_backend.Database.{Collection}
use swift_chain_backend.Database.Query.{Queries}
use swift_chain_backend.Delivery.{funded, Delivery, ok, same_status}
use swift_chain_backend.Delivery.Service.{set_status}
use swift_chain_backend.Delivery.Transitions.{same_status_iff}
use swift_chain_backend.Currency.{TokenSettings}
use swift_chain_backend.Escrow.{locked, Escrow, is_expirable}
use swift_chain_backend.Escrow.Service.{World}
use swift_chain_backend.Escrow.Release.{first, has_contract, has_transaction}
use swift_chain_backend.Escrow.Payments.{IsPayment}
use swift_chain_backend.Escrow.Funding.{
  FundedInput, Payment, set_funding, new_escrow, fund_transaction, mark_funded, update_funded,
  create_funded, fund_found,
}

any-last :
    {A : Type 0} (p : A → Bool) (xs : List A) (x : A) → p x ≡ true → any p (xs ++ x ∷ []) ≡ true
any-last p [] x h = ground arith
any-last p (y ∷ xs) x h = ground (arith, any-last p xs x h)

pub first_of :
    {A : Type 0} (P : A → Type 0) (xs : List A) (x : A) → All P xs → first xs ≡ some x → P x
first_of P [] x h e = absurd (cc)
first_of P (y ∷ xs) x (py, h) e = subst P (some-injective y x e) py

funding_recorded :
    (upper : Text → Text) (ttl : ℕ) (i : FundedInput) (p : Payment) (now : ℕ) (read e : Escrow)
    → has_transaction (trim i.transaction_hash) (set_funding upper ttl i p now read e) ≡ true
unfolding set_funding has_transaction
funding_recorded upper ttl i p now read e =
    any-last (λ t. text_eq t.hash (trim i.transaction_hash)) e.transactions (fund_transaction i now)
      (text_eq_self (trim i.transaction_hash))

module _ (is_valid_id : Text → Bool) (escrows : Collection Escrow)
    (deliveries : Collection Delivery) (queries : Queries escrows)
    (delivery_queries : Queries deliveries) (upper : Text → Text) (tokens : TokenSettings) (ttl : ℕ)
    (reason : Text) where
  abbrev Here : Type 0
  Here = World is_valid_id escrows deliveries

  abbrev undisturbed : ℕ → Here → Here
  undisturbed n w = w

  abbrev pub Found : Type 0
  Found = Option (Text × Escrow)

  abbrev pub contract_escrow : FundedInput → Here → Found
  contract_escrow i w =
      first (queries.find_where (has_contract (trim i.contract_id)) w.escrow_state)

  -- The escrow as it is stored, locked with the transaction, the amount and the asset that were paid,
  -- and its delivery funded.
  pub record IsFunded (i : FundedInput) (x : Escrow) (w' : Here) : Type 0 where
    pub id : Text
    pub stored : escrows.find_by_id id w'.escrow_state ≡ some x
    pub is_now_locked : x.status ≡ locked
    pub recorded : has_transaction (trim i.transaction_hash) x ≡ true
    pub paid : i.amount ≡ some x.amount
    pub asset_code : x.asset_code ≡ some (upper (trim (upper (trim i.asset.code))))
    pub delivery : Delivery
    pub delivered : deliveries.find_by_id i.delivery_id w'.delivery_state ≡ some delivery
    pub is_now_funded : delivery.status ≡ funded

  -- There was no escrow of the contract, or one that was pending or locked.
  abbrev pub IsFresh : Found → Type 0
  IsFresh found =
      (found ≡ none) ⊎ ((s : Text × Escrow) × (found ≡ some s) × (is_expirable s.1.status ≡ true))

  -- The transaction was recorded before, and nothing is changed.
  abbrev pub IsReplay : FundedInput → Escrow → Here → Here → Type 0
  IsReplay i x w w' = (has_transaction i.transaction_hash x ≡ true) × (w' ≡ w)

  mark_funded-funded :
      (id : Text) (d : Delivery) (w : Here)
      → deliveries.find_by_id id w.delivery_state ≡ some d
      → deliveries.find_by_id id
          (mark_funded is_valid_id escrows deliveries queries delivery_queries upper tokens ttl
            reason id d w).delivery_state
        ≡ some (record d { status = funded })
  unfolding mark_funded set_status
  mark_funded-funded id d w there = elim (Bool-cases (same_status d.status funded)) [
    | inl same ↦
        let kept : d ≡ record d { status = funded } =
          ap (λ v. record d { status = v }) ((same_status_iff d.status funded).0 same) in
        rw same (there ∙ ap some kept)
    | inr other ↦ ground (
      arith,
      there,
      other,
      deliveries.find_by_id-update_where id id (λ x. true) (set_status funded) w.delivery_state,
      text_eq_self id,
    )
  ]

  mark_funded-escrows :
      (id : Text) (d : Delivery) (w : Here)
      → (mark_funded is_valid_id escrows deliveries queries delivery_queries upper tokens ttl reason
          id d w).escrow_state
        ≡ w.escrow_state
  unfolding mark_funded
  mark_funded-escrows id d w = ground arith

  marked-IsFunded :
      (i : FundedInput) (id : Text) (x : Escrow) (d : Delivery) (w : Here)
      → escrows.find_by_id id w.escrow_state ≡ some x
      → x.status ≡ locked
      → has_transaction (trim i.transaction_hash) x ≡ true
      → i.amount ≡ some x.amount
      → x.asset_code ≡ some (upper (trim (upper (trim i.asset.code))))
      → deliveries.find_by_id i.delivery_id w.delivery_state ≡ some d
      → IsFunded i x (
          mark_funded is_valid_id escrows deliveries queries delivery_queries upper tokens ttl
            reason i.delivery_id d w)
  marked-IsFunded i id x d w there status known paid asset delivery = record {
    id = id;
    stored = ap (escrows.find_by_id id) (mark_funded-escrows i.delivery_id d w) ∙ there;
    is_now_locked = status;
    recorded = known;
    paid = paid;
    asset_code = asset;
    delivery = record d { status = funded };
    delivered = mark_funded-funded i.delivery_id d w delivery;
    is_now_funded = refl;
  }

  set_funding_status :
      (i : FundedInput) (p : Payment) (now : ℕ) (read e : Escrow)
      → (set_funding upper ttl i p now read e).status ≡ locked
  unfolding set_funding
  set_funding_status i p now read e = refl

  set_funding_paid :
      (i : FundedInput) (d : Delivery) (p : Payment) (now : ℕ) (read e : Escrow)
      → IsPayment upper tokens i d p
      → (i.amount ≡ some (set_funding upper ttl i p now read e).amount)
        × ((set_funding upper ttl i p now read e).asset_code
            ≡ some (upper (trim (upper (trim i.asset.code)))))
  unfolding set_funding
  set_funding_paid i d p now read e k = (k.amount, ap (λ c. some (upper (trim c))) k.code)

  created_paid :
      (i : FundedInput) (d : Delivery) (p : Payment) (now : ℕ)
      → IsPayment upper tokens i d p
      → (i.amount ≡ some (new_escrow upper ttl i p now).amount)
        × ((new_escrow upper ttl i p now).asset_code
            ≡ some (upper (trim (upper (trim i.asset.code)))))
  unfolding new_escrow
  created_paid i d p now k = (k.amount, ap (λ c. some (upper (trim c))) k.code)

  abbrev written : FundedInput → Payment → ℕ → Text → Escrow → Here → Here
  written i p now id e w = record w {
    escrow_state =
        escrows.update_where id (λ x. true) (set_funding upper ttl i p now e) w.escrow_state;
  }

  update_step :
      (i : FundedInput) (p : Payment) (now : ℕ) (d : Delivery) (id : Text) (e : Escrow) (w : Here)
      → escrows.find_by_id id w.escrow_state ≡ some e
      → update_funded is_valid_id escrows deliveries queries delivery_queries upper tokens ttl
          reason i p now undisturbed d id e w
        ≡ (
          ok (set_funding upper ttl i p now e e),
          mark_funded is_valid_id escrows deliveries queries delivery_queries upper tokens ttl
              reason i.delivery_id d
              (written i p now id e w),
        )
  unfolding update_funded
  update_step i p now d id e w there = ground arith

  update-IsFunded :
      (i : FundedInput) (p : Payment) (now : ℕ) (d : Delivery) (id : Text) (e x : Escrow) (w : Here)
      → IsPayment upper tokens i d p
      → escrows.find_by_id id w.escrow_state ≡ some e
      → deliveries.find_by_id i.delivery_id w.delivery_state ≡ some d
      → (update_funded is_valid_id escrows deliveries queries delivery_queries upper tokens ttl
          reason i p now undisturbed d id e w).0
        ≡ ok x
      → IsFunded i x
          (update_funded is_valid_id escrows deliveries queries delivery_queries upper tokens ttl
            reason i p now undisturbed d id e w).1
  update-IsFunded i p now d id e x w k there delivery done =
      let f = set_funding upper ttl i p now e in
      let step = update_step i p now d id e w there in
      let gave : ok (f e) ≡ ok x = ap (λ r. r.0) (sym step) ∙ done in
      let same : f e ≡ x = ground (arith, gave) in
      rw (step, sym same)
        (marked-IsFunded i id (f e) d (written i p now id e w)
          (ground (
            arith,
            escrows.find_by_id-update_where id id (λ x. true) f w.escrow_state,
            there,
            text_eq_self id,
          ))
          (set_funding_status i p now e e) (funding_recorded upper ttl i p now e e)
          (set_funding_paid i d p now e e k).0 (set_funding_paid i d p now e e k).1 delivery)

  created_recorded :
      (i : FundedInput) (p : Payment) (now : ℕ)
      → has_transaction (trim i.transaction_hash) (new_escrow upper ttl i p now) ≡ true
  unfolding has_transaction new_escrow
  created_recorded i p now = ground (arith, text_eq_self (trim i.transaction_hash))

  created_status :
      (i : FundedInput) (p : Payment) (now : ℕ) → (new_escrow upper ttl i p now).status ≡ locked
  unfolding new_escrow
  created_status i p now = refl

  create-IsFunded :
      (i : FundedInput) (p : Payment) (new_id : Text) (now : ℕ) (d : Delivery) (x : Escrow)
      (w : Here)
      → IsPayment upper tokens i d p
      → deliveries.find_by_id i.delivery_id w.delivery_state ≡ some d
      → (create_funded is_valid_id escrows deliveries queries delivery_queries upper tokens ttl
          reason i p new_id now undisturbed d w).0
        ≡ ok x
      → IsFunded i x
          (create_funded is_valid_id escrows deliveries queries delivery_queries upper tokens ttl
            reason i p new_id now undisturbed d w).1
  unfolding create_funded
  create-IsFunded i p new_id now d x w k delivery done =
      let e = new_escrow upper ttl i p now in
      let same : e ≡ x = ground (arith, done) in
      subst
        (λ y.
          IsFunded i y
            (create_funded is_valid_id escrows deliveries queries delivery_queries upper tokens ttl
              reason i p new_id now undisturbed d w).1)
        same
        (marked-IsFunded i new_id e d
          (record w { escrow_state = queries.create new_id e w.escrow_state })
          (ground
            (arith, queries.find_by_id-create new_id new_id e w.escrow_state, text_eq_self new_id))
          (created_status i p now) (created_recorded i p now) (created_paid i d p now k).0
          (created_paid i d p now k).1 delivery)

  refused :
      (i : FundedInput) (p : Payment) (new_id : Text) (now : ℕ) (d : Delivery) (id : Text)
      (e x : Escrow) (w : Here)
      → (fund_found is_valid_id escrows deliveries queries delivery_queries upper tokens ttl reason
          i p new_id now undisturbed d
          (some (id, e))
          w).0
        ≡ ok x
      → has_transaction i.transaction_hash e ≡ false
      → (fund_found is_valid_id escrows deliveries queries delivery_queries upper tokens ttl reason
            i p new_id now undisturbed d
            (some (id, e))
            w
          ≡ update_funded is_valid_id escrows deliveries queries delivery_queries upper tokens ttl
              reason i p now undisturbed d id e w)
        × (is_expirable e.status ≡ true)
  unfolding fund_found
  refused i p new_id now d id e x w done fresh = (ground arith, ground arith)

  replayed :
      (i : FundedInput) (p : Payment) (new_id : Text) (now : ℕ) (d : Delivery) (id : Text)
      (e x : Escrow) (w : Here)
      → (fund_found is_valid_id escrows deliveries queries delivery_queries upper tokens ttl reason
          i p new_id now undisturbed d
          (some (id, e))
          w).0
        ≡ ok x
      → has_transaction i.transaction_hash e ≡ true
      → IsReplay i x w
          (fund_found is_valid_id escrows deliveries queries delivery_queries upper tokens ttl
            reason i p new_id now undisturbed d
            (some (id, e))
            w).1
  unfolding fund_found
  replayed i p new_id now d id e x w done known =
      let same : e ≡ x = ground arith in
      (subst (λ y. has_transaction i.transaction_hash y ≡ true) same known, ground arith)

  pub fund_found-IsFunded :
      (i : FundedInput) (p : Payment) (new_id : Text) (now : ℕ) (d : Delivery) (found : Found)
      (x : Escrow) (w : Here)
      → IsPayment upper tokens i d p
      → ((s : Text × Escrow) → found ≡ some s → escrows.find_by_id s.0 w.escrow_state ≡ some s.1)
      → deliveries.find_by_id i.delivery_id w.delivery_state ≡ some d
      → (fund_found is_valid_id escrows deliveries queries delivery_queries upper tokens ttl reason
          i p new_id now undisturbed d found w).0
        ≡ ok x
      → let w' =
          (fund_found is_valid_id escrows deliveries queries delivery_queries upper tokens ttl
            reason i p new_id now undisturbed d found w).1 in
        IsReplay i x w w' ⊎ (IsFresh found × IsFunded i x w')
  fund_found-IsFunded i p new_id now d none x w k there delivery done =
      unfold fund_found in inr (inl refl, create-IsFunded i p new_id now d x w k delivery done)
  fund_found-IsFunded i p new_id now d (some (id, e)) x w k there delivery done =
      elim (Bool-cases (has_transaction i.transaction_hash e)) [
        | inl known ↦ inl (replayed i p new_id now d id e x w done known)
        | inr fresh ↦
            let (step, free) = refused i p new_id now d id e x w done fresh in
            inr (
              inr ((id, e), refl, free),
              subst (λ r. IsFunded i x r.1) (sym step)
                  (update-IsFunded i p now d id e x w k (there (id, e) refl) delivery
                    (ap (λ r. r.0) (sym step) ∙ done)),
            )
      ]
