-- ===== src/Delivery/Archive.antt =====
-- Archiving a delivery and restoring it.
use swift_chain_backend.Common.{
  ℕ, Bool, true, false, Option, none, some, Text, text_eq, text_eq_iff, text_eq_self, ◌≡◌, refl,
  arith, if◌then◌else◌,
}
use swift_chain_backend.Database.{Collection}
use swift_chain_backend.Delivery.{Delivery, conflict, ok, err}
use swift_chain_backend.Delivery.Service.{soft_delete, undelete, save_with, archive, restore}

soft_delete-is_deleted :
    (user : Option Text) (now : ℕ) (d : Delivery) → (soft_delete user now d).is_deleted ≡ true
unfolding soft_delete
soft_delete-is_deleted none now d = refl
soft_delete-is_deleted (some user) now d = refl

undelete-soft_delete :
    (user : Option Text) (now : ℕ) (d : Delivery) → undelete (soft_delete user now d) ≡ undelete d
unfolding soft_delete undelete
undelete-soft_delete none now d = refl
undelete-soft_delete (some user) now d = refl

undeleted :
    (d : Delivery)
    → undelete d ≡ record d { is_deleted = false; deleted_at = none; deleted_by = none }
unfolding undelete
undeleted d = refl

module _ (is_valid_id : Text → Bool) (deliveries : Collection Delivery) where
  open deliveries use {State, find_by_id, update_where, find_by_id-update_where}

  abbrev undisturbed : ℕ → State → State
  undisturbed n s = s

  archived :
      (id : Text) (user : Option Text) (now : ℕ) (s : State) (d : Delivery)
      → is_valid_id id ≡ true
      → find_by_id id s ≡ some d
      → d.is_deleted ≡ false
      → (archive is_valid_id deliveries id user now undisturbed s
          ≡ (ok (soft_delete user now d), update_where id (λ x. true) (soft_delete user now) s))
        × (find_by_id id (update_where id (λ x. true) (soft_delete user now) s)
            ≡ some (soft_delete user now d))
  unfolding archive save_with
  archived id user now s d valid found live = (
    ground arith,
    ground (
      arith,
      find_by_id-update_where id id (λ x. true) (soft_delete user now) s,
      text_eq_self id,
    ),
  )

  -- Without interference and with a valid id, archiving a delivery that is not archived
  -- marks it, and a second archive is refused with a conflict and changes nothing. Restoring it then clears the archive's three fields and leaves
  -- every other field as it was, and every other document is as it was before both.
  pub restore-archive :
      (id : Text) (user user' : Option Text) (now later : ℕ) (s : State) (d : Delivery)
      → is_valid_id id ≡ true
      → find_by_id id s ≡ some d
      → d.is_deleted ≡ false
      → let s' = (archive is_valid_id deliveries id user now undisturbed s).1 in
        let s'' = (restore is_valid_id deliveries id undisturbed s').1 in
        ((archive is_valid_id deliveries id user now undisturbed s).0 ≡ ok (soft_delete user now d))
        × (archive is_valid_id deliveries id user' later undisturbed s' ≡ (err conflict, s'))
        × ((restore is_valid_id deliveries id undisturbed s').0
            ≡ ok (record d { is_deleted = false; deleted_at = none; deleted_by = none }))
        × ((j : Text)
            → find_by_id j s'' ≡ (
                if text_eq id j
                then some (record d { is_deleted = false; deleted_at = none; deleted_by = none })
                else find_by_id j s))
  unfolding archive restore save_with
  restore-archive id user user' now later s d valid found live =
      let (done, there) = archived id user now s d valid found live in
      let d' = soft_delete user now d in
      let gone = soft_delete-is_deleted user now d in
      let back = undelete-soft_delete user now d in
      rw done (
        refl,
        ground arith,
        ground (arith, undeleted d),
        λ j. ground (
          arith,
          undeleted d,
          find_by_id-update_where id j (λ x. true) (soft_delete user now) s,
          find_by_id-update_where id j (λ x. true) undelete
              (update_where id (λ x. true) (soft_delete user now) s),
          text_eq_iff id j,
        ),
      )
