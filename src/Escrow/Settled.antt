-- ===== src/Escrow/Settled.antt =====
-- The scan for expired escrows as a whole: which escrows and deliveries it changes, and how.
use mathlib.Core.Option
use mathlib.Core.Option.{some-injective}
use swift_chain_backend.Common.{
  ap, ℕ, Bool, true, false, Option, some, List, [], ◌==◌, length, any, Text, text_eq, All, ◌≡◌, inl,
  inr, refl, sym, ◌∙◌, arith, subst, Bool-cases,
}
use swift_chain_backend.Database.{Collection}
use swift_chain_backend.Database.Query.{Queries}
use swift_chain_backend.Database.Marks.{AreMarked, AreMarked-refl, AllMarked-map, any-ids_of}
use swift_chain_backend.Delivery.{cancelled, Delivery}
use swift_chain_backend.Delivery.Service.{set_status}
use swift_chain_backend.Escrow.{Escrow, is_expired}
use swift_chain_backend.Escrow.Service.{World}
use swift_chain_backend.Escrow.Expiry.{
  is_stale, set_expired, ids_of, flag_all, flagged, flag_candidates, cancel_deliveries,
  scan_for_expired_escrows,
}
use swift_chain_backend.Escrow.Listed.{
  ids-Fit, none_listed, no_members, All-kept, listed_twice, any_sym, any-Fit,
}
use swift_chain_backend.Escrow.Marked.{
  has_run_out, expired_by, run_out_lem, expired_by_lem, flag_all-AllMarked,
}
use swift_chain_backend.Escrow.CalledOff.{
  call_off, is_open, cancel_deliveries-AreMarked, cancel_deliveries-keeps, IsOff,
  cancel_deliveries-IsOff, IsOff-map,
}

module _ (is_valid_id : Text → Bool) (escrows : Collection Escrow)
    (deliveries : Collection Delivery) (queries : Queries escrows) where
  abbrev Here : Type 0
  Here = World is_valid_id escrows deliveries

  abbrev stale_ids : ℕ → Here → List Text
  stale_ids now w = ids_of (queries.find_where (is_stale now) w.escrow_state)

  -- The escrows after the updates, those of them that are flagged, and the cancellation of their
  -- deliveries.
  abbrev marked_escrows : ℕ → Option ℕ → Here → escrows.State
  marked_escrows now ledger w =
      flag_all is_valid_id escrows deliveries queries now ledger (stale_ids now w) w.escrow_state

  abbrev flagged_now : ℕ → Option ℕ → Here → List (Text × Escrow)
  flagged_now now ledger w =
      flagged is_valid_id escrows deliveries queries (stale_ids now w) (marked_escrows now ledger w)

  abbrev scanned : ℕ → Option ℕ → Here → Here
  scanned now ledger w =
      cancel_deliveries is_valid_id escrows deliveries queries (flagged_now now ledger w) 0
        (λ n m v. v) (record w { escrow_state = marked_escrows now ledger w })

  nobody_flagged :
      (w : Here)
      → cancel_deliveries is_valid_id escrows deliveries queries
          (flagged is_valid_id escrows deliveries queries [] w.escrow_state)
          0
          (λ n m v. v)
          w
        ≡ w
  unfolding flagged cancel_deliveries
  nobody_flagged w =
      rw (none_listed (queries.find_where (λ e. is_expired e.status) w.escrow_state)) refl

  abbrev whole_scan : ℕ → Option ℕ → Here → Here
  whole_scan now ledger w =
      (scan_for_expired_escrows is_valid_id escrows deliveries queries now ledger (λ n v. v)
        (λ n m v. v) w).1

  scan_step :
      (now : ℕ) (ledger : Option ℕ) (w : Here) → whole_scan now ledger w ≡ scanned now ledger w
  unfolding scan_for_expired_escrows flag_candidates flag_all
  scan_step now ledger w = elim (Bool-cases (length (stale_ids now w) == 0)) [
    | inr somebody ↦ rw (whole_scan, somebody) refl
    | inl nobody ↦
        let empty = no_members (stale_ids now w) nobody in
        rw (whole_scan, nobody) (rw empty (sym (nobody_flagged w)))
  ]

  scanned-AreMarked :
      (now : ℕ) (ledger : Option ℕ) (w : Here)
      → AreMarked deliveries
          (is_open is_valid_id escrows deliveries queries)
          (set_status cancelled)
          w.delivery_state
          (scanned now ledger w).delivery_state
        × ((scanned now ledger w).escrow_state ≡ marked_escrows now ledger w)
  scanned-AreMarked now ledger w =
      cancel_deliveries-AreMarked is_valid_id escrows deliveries queries (flagged_now now ledger w)
        0 w.delivery_state (record w { escrow_state = marked_escrows now ledger w })
        (AreMarked-refl deliveries (is_open is_valid_id escrows deliveries queries)
          (set_status cancelled) w.delivery_state)

  set_expired_lem :
      (now : ℕ) (ledger : Option ℕ) (e : Escrow)
      → ((set_expired now ledger e).delivery ≡ e.delivery)
        × (is_expired (set_expired now ledger e).status ≡ true)
  unfolding set_expired is_expired
  set_expired_lem now ledger e = (refl, refl)

  marked_stale :
      (now : ℕ) (ledger : Option ℕ) (id : Text) (e : Escrow) (w : Here)
      → escrows.find_by_id id w.escrow_state ≡ some e
      → is_stale now e ≡ true
      → escrows.find_by_id id (marked_escrows now ledger w) ≡ some (set_expired now ledger e)
  marked_stale now ledger id e w there stale = ground (
    arith,
    flag_all-AllMarked is_valid_id escrows deliveries queries now ledger w.escrow_state id,
    there,
    stale,
  )

  scanned-IsOff :
      (now : ℕ) (ledger : Option ℕ) (id : Text) (e : Escrow) (w : Here)
      → escrows.find_by_id id w.escrow_state ≡ some e
      → is_stale now e ≡ true
      → IsOff is_valid_id escrows deliveries queries e.delivery (scanned now ledger w)
  unfolding flagged
  scanned-IsOff now ledger id e w there stale =
      let p : Escrow → Bool = λ x. is_expired x.status in
      let s' = marked_escrows now ledger w in
      let xs = queries.find_where p s' in
      let ids = stale_ids now w in
      let now_there = marked_stale now ledger id e w there stale in
      let (same, over) = set_expired_lem now ledger e in
      let listed : any (text_eq id) ids ≡ true =
        sym (any_sym id ids)
        ∙ any-ids_of id (queries.find_where (is_stale now) w.escrow_state)
        ∙ queries.find_where_all (is_stale now) id e w.escrow_state there stale in
      let key = listed_twice id ids xs listed (queries.find_where_all p id _ s' now_there over) in
      let found =
        All-kept (λ x. (escrows.find_by_id x.0 s' ≡ some x.1) × (p x.1 ≡ true))
          (λ x. escrows.find_by_id x.0 s' ≡ some x.1) (λ x. any (text_eq x.0) ids) xs (λ x h k. h.0)
          (queries.find_where_found p s') in
      subst (λ i. IsOff is_valid_id escrows deliveries queries i (scanned now ledger w)) same
        (cancel_deliveries-IsOff is_valid_id escrows deliveries queries id
          (set_expired now ledger e) s' (flagged_now now ledger w) 0
          (record w { escrow_state = s' }) now_there found key)

  flagged_others :
      (now : ℕ) (ledger : Option ℕ) (j : Text) (w : Here)
      → ((id : Text) (e : Escrow)
          → escrows.find_by_id id w.escrow_state ≡ some e
          → is_stale now e ≡ true
          → text_eq e.delivery j ≡ false)
      → All (λ x. text_eq x.1.delivery j ≡ false) (flagged_now now ledger w)
  unfolding flagged
  flagged_others now ledger j w apart =
      let p : Escrow → Bool = λ x. is_expired x.status in
      let s' = marked_escrows now ledger w in
      let stale = queries.find_where (is_stale now) w.escrow_state in
      All-kept (λ x. (escrows.find_by_id x.0 s' ≡ some x.1) × (p x.1 ≡ true))
        (λ x. text_eq x.1.delivery j ≡ false) (λ x. any (text_eq x.0) (stale_ids now w))
        (queries.find_where p s')
        (λ x h k.
          let (e, there, fits) =
            any-Fit escrows (is_stale now) w.escrow_state x.0 (stale_ids now w)
              (ids-Fit escrows (is_stale now) w.escrow_state stale
                (queries.find_where_found (is_stale now) w.escrow_state))
              k in
          let it : set_expired now ledger e ≡ x.1 =
            some-injective (set_expired now ledger e) x.1
              (sym (marked_stale now ledger x.0 e w there fits) ∙ h.0) in
          subst (λ y. text_eq y.delivery j ≡ false) it
            (subst (λ i. text_eq i j ≡ false) (sym (set_expired_lem now ledger e).0)
              (apart x.0 e there fits)))
        (queries.find_where_found p s')

  scanned-keeps :
      (now : ℕ) (ledger : Option ℕ) (j : Text) (w : Here)
      → ((id : Text) (e : Escrow)
          → escrows.find_by_id id w.escrow_state ≡ some e
          → is_stale now e ≡ true
          → text_eq e.delivery j ≡ false)
      → deliveries.find_by_id j (scanned now ledger w).delivery_state
        ≡ deliveries.find_by_id j w.delivery_state
  scanned-keeps now ledger j w apart =
      cancel_deliveries-keeps is_valid_id escrows deliveries queries j (flagged_now now ledger w) 0
        (record w { escrow_state = marked_escrows now ledger w })
        (flagged_others now ledger j w apart)

  -- Without interference, the scan for expired escrows marks the escrows that are pending or locked and
  -- whose time is over as expired, with the time of the scan and the ledger if it is known, and leaves
  -- every other escrow as it was. The delivery of each escrow that it marks is cancelled, unless it is
  -- completed or cancelled already; a delivery of no such escrow stays as it was.
  pub scan_for_expired_escrows-AllMarked :
      (now : ℕ) (ledger : Option ℕ) (w : Here)
      → let w' =
          (scan_for_expired_escrows is_valid_id escrows deliveries queries now ledger
            (λ n v. v)
            (λ n m v. v)
            w).1 in
        ((id : Text)
          → escrows.find_by_id id w'.escrow_state
            ≡ Option.map (expired_by now ledger) (escrows.find_by_id id w.escrow_state))
        × ((id : Text) (e : Escrow)
            → escrows.find_by_id id w.escrow_state ≡ some e
            → has_run_out now e.status e.expires_at ≡ true
            → deliveries.find_by_id e.delivery w'.delivery_state
              ≡ Option.map call_off (deliveries.find_by_id e.delivery w.delivery_state))
        × ((j : Text)
            → ((id : Text) (e : Escrow)
                → escrows.find_by_id id w.escrow_state ≡ some e
                → has_run_out now e.status e.expires_at ≡ true
                → text_eq e.delivery j ≡ false)
            → deliveries.find_by_id j w'.delivery_state ≡ deliveries.find_by_id j w.delivery_state)
  scan_for_expired_escrows-AllMarked now ledger w =
      let (marked, same) = scanned-AreMarked now ledger w in
      rw (scan_step now ledger w) (
        λ id.
            ap (escrows.find_by_id id) same
            ∙ AllMarked-map escrows (is_stale now) (set_expired now ledger) (expired_by now ledger)
                w.escrow_state (marked_escrows now ledger w) (expired_by_lem now ledger)
                (flag_all-AllMarked is_valid_id escrows deliveries queries now ledger
                  w.escrow_state)
                id,
        λ id e there over.
            IsOff-map is_valid_id escrows deliveries queries e.delivery w (scanned now ledger w)
              marked (scanned-IsOff now ledger id e w there (sym (run_out_lem now e) ∙ over)),
        λ j apart.
            scanned-keeps now ledger j w
              (λ id e there stale. apart id e there (run_out_lem now e ∙ stale)),
      )
