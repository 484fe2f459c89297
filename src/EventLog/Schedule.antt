-- ===== src/EventLog/Schedule.antt =====
-- The sweeps of a failed entry: when they try it again, and when they give it up.
use native.Mathlib.Nat.{pow-suc, pow-zero, mul_assoc}
use swift_chain_backend.Common.{
  ℕ, zero, suc, ◌+◌, ◌-◌, ◌*◌, ◌^◌, ◌≤◌, ◌<◌, min, Bool, true, false, not, none, some, List, [],
  ◌∷◌, ◌++◌, if◌then◌else◌, ◌&&◌, leb, Text, text_eq, text_eq_self, ◌≡◌, inl, inr, refl, sym, ap,
  ◌∙◌, arith, append-nil, subst, Bool-cases,
}
use swift_chain_backend.Database.{Collection}
use swift_chain_backend.EventLog.{EventLog, RetrySettings, is_failed, event_log_retry_delay_ms}
use swift_chain_backend.EventLog.Retry.{
  RetryOutcome, retried, scheduled, dead_lettered, tally, no_attempts, Replayed, succeeded, threw,
  DlqCall, adds, resolves, is_unclaimed, leased, mark_retried, mark_failure, is_set, World, claim,
  set_entry, record_failure, record_success, attempt_entry, attempt_claimed, retry_read, sweep,
  retry_due, is_due,
}
use swift_chain_backend.EventLog.Claims.{same_time_self}

-- The delays by doubling.
abbrev pub doubled : RetrySettings → ℕ → ℕ
doubled c zero = min c.base_ms c.max_ms
doubled c (suc n) = min (2 * doubled c n) c.max_ms

doubled-eq-capped : (c : RetrySettings) (n : ℕ) → doubled c n ≡ min (c.base_ms * 2 ^ n) c.max_ms
doubled-eq-capped c zero = rw (pow-zero 2) (omega arith)
doubled-eq-capped c (suc n) =
    let twice : c.base_ms * 2 ^ suc n ≡ c.base_ms * 2 ^ n * 2 =
      rw (pow-suc 2 n) (sym (mul_assoc c.base_ms (2 ^ n) 2)) in
    omega (arith, twice, doubled-eq-capped c n)

-- The first retry waits `base_ms`, each later one twice as long as the one before, and none longer
-- than `max_ms`.
pub delay-eq-doubled :
    (c : RetrySettings) (n : ℕ) → event_log_retry_delay_ms c (suc n) ≡ doubled c n
unfolding event_log_retry_delay_ms
delay-eq-doubled c n =
    let back : suc n - 1 ≡ n = omega arith in
    ap (λ k. min (c.base_ms * 2 ^ k) c.max_ms) back ∙ sym (doubled-eq-capped c n)

unfoldable pub added : Text → List DlqCall → ℕ
added id [] = 0
added id (adds j error ∷ calls) = (if text_eq j id then 1 else 0) + added id calls
added id (resolves j ∷ calls) = added id calls

added-append : (id : Text) (xs ys : List DlqCall) → added id (xs ++ ys) ≡ added id xs + added id ys
unfolding added
added-append id [] ys = omega arith
added-append id (adds j error ∷ xs) ys = omega (arith, added-append id xs ys)
added-append id (resolves j ∷ xs) ys = added-append id xs ys

module _ (is_valid_id : Text → Bool) (c : RetrySettings) (log : Collection EventLog)
    (id : Text) where
  open log use {find_by_id, update_where, find_by_id-update_where, update_where_unmatched}

  -- What the query gives of that entry.
  unfoldable pub due_now : ℕ → World is_valid_id c log → List (Text × EventLog)
  due_now now w = elim (find_by_id id w.entries) [
    | none ↦ []
    | some e ↦ if is_due now e then (id, e) ∷ [] else []
  ]

  -- Sweeps at the given times, with what the handler comes to each time the entry is replayed.
  unfoldable pub sweeps : List (ℕ × Replayed) → World is_valid_id c log → World is_valid_id c log
  sweeps [] w = w
  sweeps ((now, replayed) ∷ more) w =
      sweeps more
        (retry_due is_valid_id c log true (λ n. replayed) (λ n m. now) (λ n m v. v) (due_now now w)
          w).1

  -- The attempts that the sweeps make and report.
  unfoldable pub attempts : List (ℕ × Replayed) → World is_valid_id c log → ℕ
  attempts [] w = 0
  attempts ((now, replayed) ∷ more) w =
      let r =
        retry_due is_valid_id c log true (λ n. replayed) (λ n m. now) (λ n m v. v) (due_now now w)
          w in
      r.0.attempted + attempts more r.1

  -- The entry after a retry of it.
  abbrev after : Replayed → ℕ → EventLog → EventLog
  after succeeded now e = mark_retried (suc e.retries) now (leased now e)
  after (threw message) now e =
      let exhausted = leb c.max_attempts (suc e.retries) in
      mark_failure c exhausted (exhausted && not (is_set e.dead_lettered_at)) (suc e.retries)
        message now (leased now e)

  abbrev calls_after : Replayed → EventLog → List DlqCall
  calls_after succeeded e = if is_set e.dead_lettered_at then resolves id ∷ [] else []
  calls_after (threw message) e =
      if leb c.max_attempts (suc e.retries) && not (is_set e.dead_lettered_at)
      then adds id message ∷ []
      else []

  set_lem :
      (f : EventLog → EventLog) (e : EventLog) (w : World is_valid_id c log)
      → find_by_id id w.entries ≡ some e
      → let (r, w') = set_entry is_valid_id c log id f w in
        (r ≡ some (f e)) × (find_by_id id w'.entries ≡ some (f e)) × (w'.dlq ≡ w.dlq)
  unfolding set_entry
  set_lem f e w there = (
    ground arith,
    ground (arith, find_by_id-update_where id id (λ x. true) f w.entries, text_eq_self id),
    refl,
  )

  claim_lem :
      (e : EventLog) (now : ℕ) (w : World is_valid_id c log)
      → find_by_id id w.entries ≡ some e
      → is_failed e.status ≡ true
      → let (r, w') = claim is_valid_id c log id e now w in
        (r ≡ some (leased now e))
        × (find_by_id id w'.entries ≡ some (leased now e))
        × (w'.dlq ≡ w.dlq)
  unfolding claim
  claim_lem e now w there status =
      let free : is_unclaimed e.next_retry_at e ≡ true =
        unfold is_unclaimed in rw (status, same_time_self e.next_retry_at) refl in
      (
        ground arith,
        ground (
          arith,
          find_by_id-update_where id id (is_unclaimed e.next_retry_at) (leased now) w.entries,
          text_eq_self id,
        ),
        refl,
      )

  -- The entry and the queue after a retry of it.
  record IsRetried (replayed : Replayed) (now : ℕ) (e : EventLog) (w w' : World is_valid_id c log)
      : Type 0 where
    pub entry : find_by_id id w'.entries ≡ some (after replayed now e)
    pub calls : w'.dlq ≡ w.dlq ++ calls_after replayed e

  attempt_lem :
      (e : EventLog) (replayed : Replayed) (now : ℕ) (w : World is_valid_id c log)
      → find_by_id id w.entries ≡ some (leased now e)
      → IsRetried replayed now e w
          (attempt_entry is_valid_id c log id (leased now e) replayed now w).1
  unfolding attempt_entry record_failure record_success leased
  attempt_lem e succeeded now w there =
      let (r, stored, same) = set_lem (mark_retried (suc e.retries) now) (leased now e) w there in
      record { entry = ground (arith, stored); calls = ground (arith, same, append-nil w.dlq) }
  attempt_lem e (threw message) now w there =
      let exhausted = leb c.max_attempts (suc e.retries) in
      let escalate = exhausted && not (is_set e.dead_lettered_at) in
      let (r, stored, same) =
        set_lem (mark_failure c exhausted escalate (suc e.retries) message now) (leased now e) w
          there in
      record { entry = ground (arith, stored); calls = ground (arith, same, append-nil w.dlq) }

  read_lem :
      (e : EventLog) (replayed : Replayed) (now : ℕ) (w : World is_valid_id c log)
      → find_by_id id w.entries ≡ some e
      → is_failed e.status ≡ true
      → IsRetried replayed now e w
          (retry_read is_valid_id c log id e replayed (λ n. now) (λ n v. v) w).1
  unfolding retry_read attempt_claimed
  read_lem e replayed now w there status =
      let (got, stored, same) = claim_lem e now w there status in
      let a = attempt_lem e replayed now (claim is_valid_id c log id e now w).1 stored in
      rw got
        (record { entry = a.entry; calls = a.calls ∙ ap (λ q. q ++ calls_after replayed e) same })

  -- The entry was tried again that often, and is on its way or was given up once.
  pub record IsOnTrack (tried : ℕ) (w : World is_valid_id c log) : Type 0 where
    pub entry : EventLog
    pub tries : entry.retries ≡ tried
    pub found : find_by_id id w.entries ≡ some entry
    pub few : entry.retries ≤ c.max_attempts
    pub open_ended :
        is_failed entry.status ≡ true
        → is_set entry.dead_lettered_at ≡ false
        → entry.retries < c.max_attempts
    pub escalated : added id w.dlq ≡ (if is_set entry.dead_lettered_at then 1 else 0)

  due_lem :
      (now : ℕ) (e : EventLog)
      → is_due now e ≡ true
      → (is_failed e.status ≡ true) × (is_set e.dead_lettered_at ≡ false)
  unfolding is_due
  due_lem now e h = (ground arith, ground arith)

  added-one : (message : Text) → added id (adds id message ∷ []) ≡ 1
  unfolding added
  added-one message = ground (arith, text_eq_self id)

  retried-IsOnTrack :
      (replayed : Replayed) (now tried : ℕ) (w w' : World is_valid_id c log) (k : IsOnTrack tried w)
      → is_due now k.entry ≡ true
      → IsRetried replayed now k.entry w w'
      → IsOnTrack (tried + 1) w'
  unfolding leased mark_retried mark_failure added is_failed
  retried-IsOnTrack succeeded now tried w w' k due r =
      let (status, live) = due_lem now k.entry due in
      record {
        entry = after succeeded now k.entry;
        tries = omega (arith, k.tries);
        found = r.entry;
        few = omega (arith, k.open_ended status live);
        open_ended = λ h g. absurd (ground arith);
        escalated = ground (arith, r.calls, k.escalated, live, append-nil w.dlq);
      }
  retried-IsOnTrack (threw message) now tried w w' k due r =
      let (status, live) = due_lem now k.entry due in
      let below = k.open_ended status live in
      record {
        entry = after (threw message) now k.entry;
        tries = omega (arith, k.tries);
        found = r.entry;
        few = omega (arith, below);
        open_ended = λ h g. ground (arith, live);
        escalated = ground (
          arith,
          r.calls,
          k.escalated,
          live,
          append-nil w.dlq,
          added-append id w.dlq (adds id message ∷ []),
          added-one message,
        );
      }

  due_sweep :
      (now : ℕ) (replayed : Replayed) (e : EventLog) (w : World is_valid_id c log)
      → find_by_id id w.entries ≡ some e
      → (retry_due is_valid_id c log true
          (λ n. replayed)
          (λ n m. now)
          (λ n m v. v)
          (due_now now w)
          w).1
        ≡ (if is_due now e
            then (retry_read is_valid_id c log id e replayed (λ n. now) (λ n v. v) w).1
            else w)
  unfolding retry_due sweep
  due_sweep now replayed e w there = elim (Bool-cases (is_due now e)) [
    | inl due ↦
        let list : due_now now w ≡ (id, e) ∷ [] = unfold due_now in ground arith in
        rw (list, due) refl
    | inr later ↦
        let list : due_now now w ≡ [] = unfold due_now in ground arith in rw (list, later) refl
  ]

  tally-attempted :
      (o : RetryOutcome × EventLog)
      → (tally is_valid_id c log (some o) (no_attempts is_valid_id c log)).attempted ≡ 1
  unfolding tally
  tally-attempted (retried, e) = refl
  tally-attempted (scheduled, e) = refl
  tally-attempted (dead_lettered, e) = refl

  read_done :
      (e : EventLog) (replayed : Replayed) (now : ℕ) (w : World is_valid_id c log)
      → find_by_id id w.entries ≡ some e
      → is_failed e.status ≡ true
      → (o : RetryOutcome × EventLog) × ((retry_read is_valid_id c log id e replayed
            (λ n. now)
            (λ n v. v)
            w).0
          ≡ some o)
  unfolding retry_read attempt_claimed
  read_done e replayed now w there status =
      let (got, stored, same) = claim_lem e now w there status in rw got (_, refl)

  sweep-attempted :
      (now : ℕ) (replayed : Replayed) (e : EventLog) (w : World is_valid_id c log)
      → find_by_id id w.entries ≡ some e
      → (retry_due is_valid_id c log true
          (λ n. replayed)
          (λ n m. now)
          (λ n m v. v)
          (due_now now w)
          w).0.attempted
        ≡ (if is_due now e then 1 else 0)
  unfolding retry_due sweep
  sweep-attempted now replayed e w there = elim (Bool-cases (is_due now e)) [
    | inl due ↦
        let list : due_now now w ≡ (id, e) ∷ [] = unfold due_now in ground arith in
        let (o, got) = read_done e replayed now w there (due_lem now e due).0 in
        rw (list, due, got) (tally-attempted o)
    | inr later ↦
        let list : due_now now w ≡ [] = unfold due_now in ground arith in rw (list, later) refl
  ]

  swept-IsOnTrack :
      (now : ℕ) (replayed : Replayed) (tried : ℕ) (w : World is_valid_id c log)
      (k : IsOnTrack tried w)
      → IsOnTrack (tried + (if is_due now k.entry then 1 else 0)) (
          if is_due now k.entry
          then (retry_read is_valid_id c log id k.entry replayed (λ n. now) (λ n v. v) w).1
          else w)
  swept-IsOnTrack now replayed tried w k = elim (Bool-cases (is_due now k.entry)) [
    | inl due ↦ rw due (
        retried-IsOnTrack replayed now tried w
          (retry_read is_valid_id c log id k.entry replayed (λ n. now) (λ n v. v) w).1 k due
          (read_lem k.entry replayed now w k.found (due_lem now k.entry due).0))
    | inr later ↦ rw later (subst (λ n. IsOnTrack n w) (omega arith) k)
  ]

  sweeps-IsOnTrack :
      (rounds : List (ℕ × Replayed)) (tried : ℕ) (w : World is_valid_id c log)
      → IsOnTrack tried w
      → IsOnTrack (tried + attempts rounds w) (sweeps rounds w)
  unfolding sweeps attempts
  sweeps-IsOnTrack [] tried w k = subst (λ n. IsOnTrack n w) (omega arith) k
  sweeps-IsOnTrack ((now, replayed) ∷ more) tried w k =
      let e = k.entry in
      let r =
        retry_due is_valid_id c log true (λ n. replayed) (λ n m. now) (λ n m v. v) (due_now now w)
          w in
      let swept = swept-IsOnTrack now replayed tried w k in
      let counted : IsOnTrack (tried + r.0.attempted) r.1 =
        rw (sweep-attempted now replayed e w k.found, due_sweep now replayed e w k.found) swept in
      subst (λ n. IsOnTrack n (sweeps more r.1)) (omega arith)
        (sweeps-IsOnTrack more (tried + r.0.attempted) r.1 counted)

  -- Without interference, however often the sweep runs and whatever the handler does, an entry that has
  -- failed and has not been retried is tried again at most `max_attempts` times: the attempts that the
  -- sweeps report are as many as the entry's counter says. It is added to the dead-letter queue exactly
  -- once if it is dead-lettered and never otherwise.
  pub sweeps_bounded :
      (rounds : List (ℕ × Replayed)) (w : World is_valid_id c log) (e : EventLog)
      → find_by_id id w.entries ≡ some e
      → e.retries ≡ 0
      → e.dead_lettered_at ≡ none
      → 0 < c.max_attempts
      → w.dlq ≡ []
      → (e' : EventLog) × (find_by_id id (sweeps rounds w).entries ≡ some e')
        × (attempts rounds w ≤ c.max_attempts)
        × (e'.retries ≡ attempts rounds w)
        × (added id (sweeps rounds w).dlq ≡ (if is_set e'.dead_lettered_at then 1 else 0))
  sweeps_bounded rounds w e there fresh live some_left empty =
      let k = sweeps-IsOnTrack rounds 0 w (record {
        entry = e;
        tries = fresh;
        found = there;
        few = omega (arith, fresh);
        open_ended = λ h g. omega (arith, fresh);
        escalated = unfold added in rw (empty, live) refl;
      }) in
      (k.entry, k.found, omega (arith, k.tries, k.few), omega (arith, k.tries), k.escalated)
