-- ===== src/Escrow/Lapsed.antt =====
-- src/services/escrow.service.ts: deliveries whose funding window has lapsed. `others` is what the rest
-- of the system does to the deliveries between the read of one and the conditional update.
use swift_chain_backend.Common.{
  ℕ, suc, Bool, not, Option, none, some, List, [], ◌∷◌, if◌then◌else◌, ◌&&◌, Text,
}
use swift_chain_backend.Database.{Collection, matched}
use swift_chain_backend.Database.Query.{Queries}
use swift_chain_backend.Delivery.{cancelled, Delivery, Raised, same_status}
use swift_chain_backend.Delivery.Service.{has_status}
use swift_chain_backend.Escrow.Expiry.{is_funding_window_lapsed, set_lapsed, lapse_raised}

-- The query of `scanLapsedFundingWindows`.
unfoldable pub is_candidate : ℕ → Delivery → Bool
unfolding is_funding_window_lapsed
is_candidate now d = is_funding_window_lapsed now d && not d.is_deleted

-- The delivery that is returned, and the milestone that is raised.
pub record Cancellation : Type 0 where
  pub delivery : Delivery
  pub milestone : Option Raised

abbrev pub cancellation : Delivery → Option Delivery → Cancellation
cancellation d none = record { delivery = d; milestone = none }
cancellation d (some updated) = record { delivery = updated; milestone = some (lapse_raised d) }

module _ (deliveries : Collection Delivery) (queries : Queries deliveries) where
  open deliveries use {State, find_by_id, update_where}

  -- `cancelLapsedFundingWindow` of a delivery as it was read.
  unfoldable pub cancel_lapsed_funding_window :
      Text → Delivery → Text → ℕ → (State → State) → State → Cancellation × State
  unfolding is_funding_window_lapsed set_lapsed has_status
  cancel_lapsed_funding_window id d reason now others s =
      if is_funding_window_lapsed now d
      then (
        cancellation d
            (matched (has_status d.status) (set_lapsed reason) (find_by_id id (others s))),
        update_where id (has_status d.status) (set_lapsed reason) (others s),
      )
      else (cancellation d none, s)

  -- The loop over the lapsed deliveries, from its n-th round on; `clock n` is the time that its test
  -- reads. It gives the ids of those that are cancelled then.
  unfoldable pub cancel_lapsed :
      Text → List (Text × Delivery) → ℕ → (ℕ → ℕ) → (ℕ → State → State) → State → List Text × State
  unfolding cancel_lapsed_funding_window
  cancel_lapsed reason [] n clock others s = ([], s)
  cancel_lapsed reason ((id, d) ∷ lapsed) n clock others s =
      let (c, s') = cancel_lapsed_funding_window id d reason (clock n) (others n) s in
      let (ids, s'') = cancel_lapsed reason lapsed (suc n) clock others s' in
      (if same_status c.delivery.status cancelled then id ∷ ids else ids, s'')

  unfoldable pub scan_lapsed_funding_windows :
      Text → ℕ → (ℕ → ℕ) → (ℕ → State → State) → State → List Text × State
  unfolding is_candidate cancel_lapsed
  scan_lapsed_funding_windows reason now clock others s =
      cancel_lapsed reason (queries.find_where (is_candidate now) s) 0 clock others s
