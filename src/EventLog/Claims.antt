-- ===== src/EventLog/Claims.antt =====
-- Which of several retriers of one entry gets to replay it.
use swift_chain_backend.Common.{
  ℕ, ◌≤◌, Bool, true, false, Option, none, some, Text, text_eq_self, ◌≡◌, ◌≢◌, inl, inr, refl,
  arith, Option-cases,
}
use swift_chain_backend.Database.{Collection, matched}
use swift_chain_backend.EventLog.{EventLog, RetrySettings, is_failed}
use swift_chain_backend.EventLog.Retry.{
  Replayed, RetryError, refused, same_time, is_unclaimed, leased, World, claim, attempt_claimed,
  as_retried, retry_by_id,
}

pub same_time_self : (t : Option ℕ) → same_time t t ≡ true
unfolding same_time
same_time_self none = refl
same_time_self (some t) = ground arith

module _ (is_valid_id : Text → Bool) (c : RetrySettings) (log : Collection EventLog) where
  open log use {find_by_id, update_where, find_by_id-update_where, update_where_unmatched}

  -- What a claim that succeeds has found, and what it leaves.
  record IsClaim (id : Text) (entry : EventLog) (now : ℕ) (x : EventLog)
      (w w' : World is_valid_id c log) : Type 0 where
    pub before : EventLog
    pub there : find_by_id id w.entries ≡ some before
    pub unclaimed : is_unclaimed entry.next_retry_at before ≡ true
    pub lease : x ≡ leased now before
    pub stored : find_by_id id w'.entries ≡ some x

  claim-IsClaim :
      (id : Text) (entry x : EventLog) (now : ℕ) (w : World is_valid_id c log)
      → (claim is_valid_id c log id entry now w).0 ≡ some x
      → IsClaim id entry now x w (claim is_valid_id c log id entry now w).1
  unfolding claim
  claim-IsClaim id entry x now w e = elim (Option-cases (find_by_id id w.entries)) [
    | inl gone ↦ absurd (ground arith)
    | inr (old, there) ↦ record {
      before = old;
      there = there;
      unclaimed = ground arith;
      lease = ground arith;
      stored = ground (
        arith,
        find_by_id-update_where id id (is_unclaimed entry.next_retry_at) (leased now) w.entries,
        text_eq_self id,
      );
    }
  ]

  leased_status :
      (t : Option ℕ) (now : ℕ) (e : EventLog)
      → is_unclaimed t e ≡ true
      → is_failed (leased now e).status ≡ true
  unfolding is_unclaimed leased
  leased_status t now e h = ground arith

  -- A lease that moves the time matches no other reader of the old time.
  leased_apart :
      (t : Option ℕ) (now : ℕ) (e : EventLog)
      → ((u : ℕ) → t ≡ some u → u ≤ now)
      → is_unclaimed t (leased now e) ≡ false
  unfolding is_unclaimed leased same_time
  leased_apart none now e past = ground arith
  leased_apart (some u) now e past = ground (arith, past u refl)

  -- Two retriers read an entry with the same `nextRetryAt`, which is null or not in the future. If one
  -- of them claims it, and the entry is as that claim left it when the other one's claim comes, then
  -- the other one gets nothing and writes nothing, whatever its clock says.
  pub claim_excludes :
      (id : Text) (entry entry' x : EventLog) (now now' : ℕ) (w w' : World is_valid_id c log)
      → entry'.next_retry_at ≡ entry.next_retry_at
      → ((t : ℕ) → entry.next_retry_at ≡ some t → t ≤ now)
      → (claim is_valid_id c log id entry now w).0 ≡ some x
      → find_by_id id w'.entries ≡ some x
      → claim is_valid_id c log id entry' now' w' ≡ (none, w')
  unfolding claim
  claim_excludes id entry entry' x now now' w w' same past got there =
      let k = claim-IsClaim id entry x now w got in
      let apart : is_unclaimed entry'.next_retry_at x ≡ false =
        rw (same, k.lease) (leased_apart entry.next_retry_at now k.before past) in
      let missed : matched (is_unclaimed entry'.next_retry_at) (leased now')
            (find_by_id id w'.entries)
          ≡ none =
        rw (there, apart) refl in
      let same_log =
        update_where_unmatched id (is_unclaimed entry'.next_retry_at) (leased now') w'.entries
          missed in
      λ i. (missed i, record w' { entries = same_log i })

  gets_through :
      (id : Text) (y : EventLog) (replayed : Replayed) (clock : ℕ → ℕ) (w : World is_valid_id c log)
      (e : RetryError)
      → find_by_id id w.entries ≡ some y
      → is_unclaimed y.next_retry_at y ≡ true
      → (as_retried is_valid_id c log (
          attempt_claimed is_valid_id c log id replayed clock
            (λ n v. v)
            (claim is_valid_id c log id y (clock 0) w))).0
        ≢ refused e
  unfolding claim attempt_claimed
  gets_through id y replayed clock w e there free h = ground (arith)

  -- While that attempt runs the entry is still failed: an admin's retry that begins then reads the
  -- lease as the entry's `nextRetryAt` and is not refused, so the handler can run twice at a time.
  pub lease_admits :
      (id : Text) (entry x : EventLog) (now : ℕ) (w : World is_valid_id c log) (replayed : Replayed)
      (clock : ℕ → ℕ) (e : RetryError)
      → is_valid_id id ≡ true
      → (claim is_valid_id c log id entry now w).0 ≡ some x
      → (retry_by_id is_valid_id c log true id replayed clock
          (λ n v. v)
          (claim is_valid_id c log id entry now w).1).0
        ≢ refused e
  unfolding retry_by_id
  lease_admits id entry x now w replayed clock e valid got =
      let k = claim-IsClaim id entry x now w got in
      let still_failed : is_failed x.status ≡ true =
        rw k.lease (leased_status entry.next_retry_at now k.before k.unclaimed) in
      let free : is_unclaimed x.next_retry_at x ≡ true =
        unfold is_unclaimed in rw (still_failed, same_time_self x.next_retry_at) refl in
      rw (valid, k.stored, still_failed)
        (gets_through id x replayed clock (claim is_valid_id c log id entry now w).1 e k.stored
          free)
