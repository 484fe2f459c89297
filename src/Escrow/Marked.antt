-- ===== src/Escrow/Marked.antt =====
-- The first half of the scan for expired escrows: the escrows that it marks.
use swift_chain_backend.Common.{
  leb, if◌then◌else◌, ℕ, Bool, true, false, Option, some, List, [], ◌∷◌, ◌==◌, length, any, Text,
  text_eq, text_eq_iff, ◌≡◌, inl, inr, refl, ◌∙◌, arith, subst, Bool-cases,
}
use swift_chain_backend.Database.{Collection, or_kept}
use swift_chain_backend.Database.Query.{Queries}
use swift_chain_backend.Database.Marks.{
  AreMarked, AllMarked, IsShut, AreMarked-refl, still_fits, AreMarked-update_where,
  update_where-IsShut, update_where-keeps_IsShut, shut_changed, AreMarked-AllMarked, any-ids_of,
}
use swift_chain_backend.Delivery.{Delivery}
use swift_chain_backend.Escrow.{EscrowStatus, expired, Escrow, is_expirable}
use swift_chain_backend.Escrow.Service.{World}
use swift_chain_backend.Escrow.Expiry.{is_stale, set_expired, ids_of, flag_all}
use swift_chain_backend.Escrow.Listed.{Fit, ids-Fit}

-- The time of an escrow that is pending or locked is over.
abbrev pub has_run_out : ℕ → EscrowStatus → Option ℕ → Bool
has_run_out now EscrowStatus.pending (some t) = leb t now
has_run_out now EscrowStatus.locked (some t) = leb t now
has_run_out now _ _ = false

-- What an escrow should be after the scan.
abbrev pub expired_by : ℕ → Option ℕ → Escrow → Escrow
expired_by now ledger e =
    if has_run_out now e.status e.expires_at
    then record e {
      status = expired;
      expired_at = some now;
      flagged_at = some now;
      flagged_ledger = or_kept ledger e.flagged_ledger;
    }
    else e

pub run_out_lem : (now : ℕ) (e : Escrow) → has_run_out now e.status e.expires_at ≡ is_stale now e
unfolding is_stale is_expirable
run_out_lem now e = ground arith

pub expired_by_lem :
    (now : ℕ) (ledger : Option ℕ) (e : Escrow)
    → expired_by now ledger e ≡ (if is_stale now e then set_expired now ledger e else e)
unfolding set_expired
expired_by_lem now ledger e = ground (arith, run_out_lem now e)

module _ (is_valid_id : Text → Bool) (escrows : Collection Escrow)
    (deliveries : Collection Delivery) (queries : Queries escrows) where
  abbrev Here : Type 0
  Here = World is_valid_id escrows deliveries

  pub stale_expirable :
      (now : ℕ) (ledger : Option ℕ) (e : Escrow)
      → is_expirable (set_expired now ledger e).status ≡ false
  unfolding set_expired is_expirable
  stale_expirable now ledger e = refl

  stale_once :
      (now : ℕ) (ledger : Option ℕ) (e : Escrow) → is_stale now (set_expired now ledger e) ≡ false
  unfolding is_stale
  stale_once now ledger e = rw (stale_expirable now ledger e) refl

  flag_all-AreMarked :
      (now : ℕ) (ledger : Option ℕ) (ids : List Text) (s s' : escrows.State)
      → Fit escrows (is_stale now) s ids
      → AreMarked escrows (is_stale now) (set_expired now ledger) s s'
      → AreMarked escrows
          (is_stale now)
          (set_expired now ledger)
          s
          (flag_all is_valid_id escrows deliveries queries now ledger ids s')
  unfolding flag_all
  flag_all-AreMarked now ledger [] s s' h k = k
  flag_all-AreMarked now ledger (id ∷ ids) s s' ((e, there, stale), h) k =
      let g : Escrow → Bool = λ x. is_expirable x.status in
      let f = set_expired now ledger in
      flag_all-AreMarked now ledger ids s (escrows.update_where id g f s') h (
        AreMarked-update_where escrows (is_stale now) f id g s s' k
          (λ d found opened.
            still_fits escrows (is_stale now) f id e d g s s' k there stale
              (stale_expirable now ledger) found opened)
          (stale_once now ledger))

  abbrev expirable : Escrow → Bool
  expirable e = is_expirable e.status

  flag_all-keeps_IsShut :
      (now : ℕ) (ledger : Option ℕ) (id : Text) (ids : List Text) (s : escrows.State)
      → IsShut escrows (is_stale now) (set_expired now ledger) expirable id s
      → IsShut escrows
          (is_stale now)
          (set_expired now ledger)
          expirable
          id
          (flag_all is_valid_id escrows deliveries queries now ledger ids s)
  unfolding flag_all
  flag_all-keeps_IsShut now ledger id [] s k = k
  flag_all-keeps_IsShut now ledger id (j ∷ ids) s k =
      let f = set_expired now ledger in
      flag_all-keeps_IsShut now ledger id ids (escrows.update_where j expirable f s) (
        update_where-keeps_IsShut escrows (is_stale now) f id j expirable s
          (stale_expirable now ledger) k)

  flag_all-IsShut :
      (now : ℕ) (ledger : Option ℕ) (id : Text) (ids : List Text) (s : escrows.State)
      → any (λ j. text_eq j id) ids ≡ true
      → IsShut escrows
          (is_stale now)
          (set_expired now ledger)
          expirable
          id
          (flag_all is_valid_id escrows deliveries queries now ledger ids s)
  unfolding flag_all
  flag_all-IsShut now ledger id [] s h = absurd (cc)
  flag_all-IsShut now ledger id (j ∷ ids) s h =
      let f = set_expired now ledger in
      let s' = escrows.update_where j expirable f s in
      elim (Bool-cases (text_eq j id)) [
        | inl same ↦ flag_all-keeps_IsShut now ledger id ids s' (
            subst (λ x. IsShut escrows (is_stale now) f expirable x s') ((text_eq_iff j id).0 same)
              (update_where-IsShut escrows (is_stale now) f j expirable s
                (stale_expirable now ledger)))
        | inr other ↦ flag_all-IsShut now ledger id ids s' (ground (arith, h, other))
      ]

  is_stale-expirable : (now : ℕ) (e : Escrow) → is_stale now e ≡ true → expirable e ≡ true
  unfolding is_stale
  is_stale-expirable now e h = ground arith

  pub flag_all-AllMarked :
      (now : ℕ) (ledger : Option ℕ) (s : escrows.State)
      → AllMarked escrows (is_stale now) (set_expired now ledger) s (
          flag_all is_valid_id escrows deliveries queries now ledger
            (ids_of (queries.find_where (is_stale now) s))
            s)
  flag_all-AllMarked now ledger s =
      let p = is_stale now in
      let f = set_expired now ledger in
      let xs = queries.find_where p s in
      let s' = flag_all is_valid_id escrows deliveries queries now ledger (ids_of xs) s in
      let marked : AreMarked escrows p f s s' =
        flag_all-AreMarked now ledger (ids_of xs) s s
          (ids-Fit escrows p s xs (queries.find_where_found p s)) (AreMarked-refl escrows p f s) in
      AreMarked-AllMarked escrows p f s s' marked (λ id e there stale.
        shut_changed escrows p f id e expirable s s' marked
          (flag_all-IsShut now ledger id (ids_of xs) s
            (any-ids_of id xs ∙ queries.find_where_all p id e s there stale))
          there (is_stale-expirable now e stale))

  pub no_ids :
      (now : ℕ) (ledger : Option ℕ) (ids : List Text) (s : escrows.State)
      → (length ids == 0) ≡ true
      → flag_all is_valid_id escrows deliveries queries now ledger ids s ≡ s
  unfolding flag_all
  no_ids now ledger [] s h = refl
  no_ids now ledger (id ∷ ids) s h = absurd (ground arith)
