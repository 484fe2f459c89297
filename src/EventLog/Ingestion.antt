-- ===== src/EventLog/Ingestion.antt =====
-- What `ingest` leaves recorded of an event, and of the others.
use swift_chain_backend.Common.{
  ℕ, true, false, none, some, ◌&&◌, Text, text_eq, text_eq_self, text_eq_iff, ◌≡◌, inl, inr, refl,
  ◌∙◌, arith, Option-cases, Bool-cases,
}
use swift_chain_backend.Database.Keyed.{Records}
use swift_chain_backend.EventLog.{processed, failed, EventLog, RetrySettings, is_pending}
use swift_chain_backend.EventLog.Retry.{Replayed, succeeded, threw}
use swift_chain_backend.EventLog.Poller.{
  ChainEvent, duplicates, new_entry, mark_processed, mark_failed, Indexer, dispatch, ingest,
}

module _ (c : RetrySettings) (log : Records EventLog) where
  open log use {
    find_one, with_record, create, update_one, find_one-with_record, create_free, create_taken,
    update_one_taken,
  }

  -- What an entry says of the handler's outcome.
  abbrev pub IsOutcome : Replayed → ℕ → EventLog → Type 0
  IsOutcome succeeded now x = (x.status ≡ processed) × (x.processed_at ≡ some now)
  IsOutcome (threw message) now x = (x.status ≡ failed) × (x.error_message ≡ some message)

  abbrev pub Anything : EventLog → Type 0
  Anything x = Unit

  -- The event's entry is there, no longer pending, and as `Q` says.
  pub record IsSettled (Q : EventLog → Type 0) (event_type : Text) (e : ChainEvent)
      (w : Indexer c log) : Type 0 where
    pub entry : EventLog
    pub found : find_one e.tx_hash event_type w.entries ≡ some entry
    pub over : is_pending entry.status ≡ false
    pub fits : Q entry

  pub IsSettled-Anything :
      (Q : EventLog → Type 0) (event_type : Text) (e : ChainEvent) (w : Indexer c log)
      → IsSettled Q event_type e w
      → IsSettled Anything event_type e w
  IsSettled-Anything Q event_type e w k = record {
    entry = k.entry;
    found = k.found;
    over = k.over;
    fits = tt;
  }

  dispatch-IsSettled :
      (event_type : Text) (e : ChainEvent) (replayed : Replayed) (now : ℕ) (w : Indexer c log)
      (x : EventLog)
      → find_one e.tx_hash event_type w.entries ≡ some x
      → IsSettled
          (IsOutcome replayed now)
          event_type
          e
          (dispatch c log event_type e replayed now (λ n v. v) w).1
  unfolding dispatch
  dispatch-IsSettled event_type e succeeded now w x there = record {
    entry = mark_processed now x;
    found = ground (
      arith,
      update_one_taken e.tx_hash event_type (mark_processed now) x w.entries there,
      find_one-with_record e.tx_hash event_type e.tx_hash event_type (mark_processed now x)
          w.entries,
      text_eq_self e.tx_hash,
      text_eq_self event_type,
    );
    over = unfold mark_processed is_pending in refl;
    fits = unfold mark_processed in (refl, refl);
  }
  dispatch-IsSettled event_type e (threw message) now w x there = record {
    entry = mark_failed c message now x;
    found = ground (
      arith,
      update_one_taken e.tx_hash event_type (mark_failed c message now) x w.entries there,
      find_one-with_record e.tx_hash event_type e.tx_hash event_type (mark_failed c message now x)
          w.entries,
      text_eq_self e.tx_hash,
      text_eq_self event_type,
    );
    over = unfold mark_failed is_pending in refl;
    fits = unfold mark_failed in (refl, refl);
  }

  dispatch-other :
      (event_type : Text) (e : ChainEvent) (replayed : Replayed) (now : ℕ) (w : Indexer c log)
      (x : EventLog) (j f : Text)
      → find_one e.tx_hash event_type w.entries ≡ some x
      → text_eq e.tx_hash j && text_eq event_type f ≡ false
      → find_one j f (dispatch c log event_type e replayed now (λ n v. v) w).1.entries
        ≡ find_one j f w.entries
  unfolding dispatch
  dispatch-other event_type e succeeded now w x j f there apart = ground (
    arith,
    update_one_taken e.tx_hash event_type (mark_processed now) x w.entries there,
    find_one-with_record e.tx_hash event_type j f (mark_processed now x) w.entries,
  )
  dispatch-other event_type e (threw message) now w x j f there apart = ground (
    arith,
    update_one_taken e.tx_hash event_type (mark_failed c message now) x w.entries there,
    find_one-with_record e.tx_hash event_type j f (mark_failed c message now x) w.entries,
  )

  -- The collection with the pending entry of an event that is new.
  abbrev with_new : Text → ChainEvent → Indexer c log → Indexer c log
  with_new event_type e w = record w {
    entries = with_record e.tx_hash event_type (new_entry event_type e) w.entries;
  }

  new_found :
      (event_type : Text) (e : ChainEvent) (w : Indexer c log)
      → find_one e.tx_hash event_type (with_new event_type e w).entries
        ≡ some (new_entry event_type e)
  new_found event_type e w = ground (
    arith,
    find_one-with_record e.tx_hash event_type e.tx_hash event_type (new_entry event_type e)
        w.entries,
    text_eq_self e.tx_hash,
    text_eq_self event_type,
  )

  -- What `ingest` is, by what it finds.
  pub ingest_settled :
      (Q : EventLog → Type 0) (event_type : Text) (e : ChainEvent) (replayed : Replayed) (now : ℕ)
      (w : Indexer c log)
      → IsSettled Q event_type e w
      → ingest c log event_type e replayed now (λ n v. v) w ≡ (duplicates, w)
  unfolding ingest
  ingest_settled Q event_type e replayed now w k = ground (arith, k.found, k.over)

  ingest_pending :
      (event_type : Text) (e : ChainEvent) (replayed : Replayed) (now : ℕ) (w : Indexer c log)
      (x : EventLog)
      → find_one e.tx_hash event_type w.entries ≡ some x
      → is_pending x.status ≡ true
      → ingest c log event_type e replayed now (λ n v. v) w
        ≡ dispatch c log event_type e replayed now (λ n v. v) w
  unfolding ingest
  ingest_pending event_type e replayed now w x there open_status = ground arith

  ingest_new :
      (event_type : Text) (e : ChainEvent) (replayed : Replayed) (now : ℕ) (w : Indexer c log)
      → find_one e.tx_hash event_type w.entries ≡ none
      → ingest c log event_type e replayed now (λ n v. v) w
        ≡ dispatch c log event_type e replayed now (λ n v. v) (with_new event_type e w)
  unfolding ingest
  ingest_new event_type e replayed now w new =
      ground (arith, create_free e.tx_hash event_type (new_entry event_type e) w.entries new)

  -- The three cases.
  data Found (event_type : Text) (e : ChainEvent) (w : Indexer c log) : Type 0 where
    over : IsSettled Anything event_type e w → Found event_type e w
    open_entry :
        (x : EventLog)
        → find_one e.tx_hash event_type w.entries ≡ some x
        → is_pending x.status ≡ true
        → Found event_type e w
    new : find_one e.tx_hash event_type w.entries ≡ none → Found event_type e w

  look : (event_type : Text) (e : ChainEvent) (w : Indexer c log) → Found event_type e w
  look event_type e w = elim (Option-cases (find_one e.tx_hash event_type w.entries)) [
    | inl absent ↦ new absent
    | inr (x, there) ↦ elim (Bool-cases (is_pending x.status)) [
      | inl waits ↦ open_entry x there waits
      | inr done ↦ over (record { entry = x; found = there; over = done; fits = tt })
    ]
  ]

  pub ingest_new-IsSettled :
      (event_type : Text) (e : ChainEvent) (replayed : Replayed) (now : ℕ) (w : Indexer c log)
      → find_one e.tx_hash event_type w.entries ≡ none
      → IsSettled
          (IsOutcome replayed now)
          event_type
          e
          (ingest c log event_type e replayed now (λ n v. v) w).1
  ingest_new-IsSettled event_type e replayed now w absent =
      rw (ingest_new event_type e replayed now w absent) (
        dispatch-IsSettled event_type e replayed now (with_new event_type e w)
          (new_entry event_type e) (new_found event_type e w))

  pub ingest-IsSettled :
      (event_type : Text) (e : ChainEvent) (replayed : Replayed) (now : ℕ) (w : Indexer c log)
      → IsSettled Anything event_type e (ingest c log event_type e replayed now (λ n v. v) w).1
  ingest-IsSettled event_type e replayed now w = elim (look event_type e w) [
    | over k ↦ rw (ingest_settled Anything event_type e replayed now w k) k
    | open_entry x there waits ↦ rw (ingest_pending event_type e replayed now w x there waits) (
        IsSettled-Anything (IsOutcome replayed now) event_type e _
          (dispatch-IsSettled event_type e replayed now w x there))
    | new absent ↦
        IsSettled-Anything (IsOutcome replayed now) event_type e _
          (ingest_new-IsSettled event_type e replayed now w absent)
  ]

  -- Two events with the same keys meet the same entry.
  same_keys :
      (s t : Text) (e d : ChainEvent) (w : Indexer c log)
      → text_eq e.tx_hash d.tx_hash && text_eq s t ≡ true
      → find_one e.tx_hash s w.entries ≡ find_one d.tx_hash t w.entries
  same_keys s t e d w h = ground (arith, text_eq_iff e.tx_hash d.tx_hash, text_eq_iff s t)

  -- What is settled stays settled, as it was.
  pub ingest-keeps :
      (Q : EventLog → Type 0) (s t : Text) (e d : ChainEvent) (replayed : Replayed) (now : ℕ)
      (w : Indexer c log)
      → IsSettled Q t d w
      → IsSettled Q t d (ingest c log s e replayed now (λ n v. v) w).1
  ingest-keeps Q s t e d replayed now w k =
      elim (Bool-cases (text_eq e.tx_hash d.tx_hash && text_eq s t)) [
        | inl same ↦
            let k' : IsSettled Q s e w = record {
              entry = k.entry;
              found = same_keys s t e d w same ∙ k.found;
              over = k.over;
              fits = k.fits;
            } in
            rw (ingest_settled Q s e replayed now w k') k
        | inr apart ↦ elim (look s e w) [
          | over k' ↦ rw (ingest_settled Anything s e replayed now w k') k
          | open_entry x there waits ↦
              rw (ingest_pending s e replayed now w x there waits) (record {
                entry = k.entry;
                found = dispatch-other s e replayed now w x d.tx_hash t there apart ∙ k.found;
                over = k.over;
                fits = k.fits;
              })
          | new absent ↦ rw (ingest_new s e replayed now w absent) (record {
            entry = k.entry;
            found =
                dispatch-other s e replayed now (with_new s e w) (new_entry s e) d.tx_hash t
                  (new_found s e w) apart
                ∙ ground (
                  arith,
                  k.found,
                  find_one-with_record e.tx_hash s d.tx_hash t (new_entry s e) w.entries,
                );
            over = k.over;
            fits = k.fits;
          })
        ]
      ]
