-- ===== src/Escrow/Recorded.antt =====
-- What a funding event that is recorded has found, and what it leaves.
use swift_chain_backend.Common.{ℕ, Bool, false, Option, Text, text_eq, ◌≡◌, ◌⊎◌}
use swift_chain_backend.Database.{Collection}
use swift_chain_backend.Database.Query.{Queries}
use swift_chain_backend.Delivery.{cancelled, Delivery, same_status}
use swift_chain_backend.Currency.{TokenSettings}
use swift_chain_backend.Escrow.{Escrow}
use swift_chain_backend.Escrow.Service.{World}
use swift_chain_backend.Escrow.Release.{first}
use swift_chain_backend.Escrow.Expiry.{is_funding_window_lapsed}
use swift_chain_backend.Escrow.Funding.{FundedInput, Payment}
use swift_chain_backend.Escrow.Payments.{IsPayment}
use swift_chain_backend.Escrow.Funded.{IsFunded, IsReplay, IsFresh, contract_escrow}

module _ (is_valid_id : Text → Bool) (escrows : Collection Escrow)
    (deliveries : Collection Delivery) (queries : Queries escrows)
    (delivery_queries : Queries deliveries) (upper : Text → Text) (tokens : TokenSettings) (ttl : ℕ)
    (reason : Text) where
  abbrev Here : Type 0
  Here = World is_valid_id escrows deliveries

  abbrev undisturbed : ℕ → Here → Here
  undisturbed n w = w

  -- Either of the two ends that a recorded event can come to.
  abbrev pub IsRecorded : FundedInput → Escrow → Here → Here → Type 0
  IsRecorded i x w w' =
      IsReplay is_valid_id escrows deliveries queries delivery_queries upper tokens ttl reason i x w
        w'
      ⊎ (IsFresh is_valid_id escrows deliveries queries delivery_queries upper tokens ttl reason (
            contract_escrow is_valid_id escrows deliveries queries delivery_queries upper tokens ttl
              reason i w)
          × IsFunded is_valid_id escrows deliveries queries delivery_queries upper tokens ttl reason
              i x w')

  -- A delivery that the event was accepted for.
  pub record IsAccepted (i : FundedInput) (now : ℕ) (d : Delivery) : Type 0 where
    pub not_cancelled : same_status d.status cancelled ≡ false
    pub not_lapsed : is_funding_window_lapsed now d ≡ false
    pub payment : Payment
    pub paid : IsPayment upper tokens i d payment

  abbrev own_escrow : FundedInput → Here → Option (Text × Escrow)
  own_escrow i w = first (queries.find_where (λ e. text_eq e.delivery i.delivery_id) w.escrow_state)
