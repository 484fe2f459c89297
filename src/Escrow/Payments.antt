-- ===== src/Escrow/Payments.antt =====
-- src/services/escrow.service.ts: what the guards of `recordEscrowFunded` on the asset and on the amount
-- let through.
use mathlib.Core.Option
use swift_chain_backend.Common.{
  ℕ, zero, suc, ◌&&◌, true, Option, none, some, Text, text_eq, text_eq_iff, trim, ◌<◌, ◌≡◌, ◌⊎◌,
  inl, inr, refl, sym, ap, ◌∙◌, arith, Option-cases,
}
use swift_chain_backend.Delivery.{Asset, AppError, Delivery, Result, ok, err}
use swift_chain_backend.Currency.{TokenSettings, same_text, validate_asset, same_asset_error}
use swift_chain_backend.Escrow.Funding.{
  FundedInput, Payment, or_xlm, positive, agreed_payment, check_payment,
}

-- The payment is of the input's amount and asset, and both are what the delivery asks for.
pub record IsPayment (upper : Text → Text) (tokens : TokenSettings) (i : FundedInput) (d : Delivery)
    (p : Payment) : Type 0 where
  pub amount : i.amount ≡ some p.amount
  pub is_positive : 0 < p.amount
  pub agreed : (d.escrow_amount ≡ none) ⊎ (d.escrow_amount ≡ some p.amount)
  pub code : p.asset.code ≡ upper (trim i.asset.code)
  pub issuer : (p.asset.issuer ≡ none) ⊎ (p.asset.issuer ≡ Option.map trim i.asset.issuer)
  pub same_code : upper (trim (or_xlm d.escrow_asset).code) ≡ upper (trim p.asset.code)
  pub valid : Asset
  pub expected : validate_asset upper tokens (or_xlm d.escrow_asset) ≡ ok valid
  pub actual : validate_asset upper tokens p.asset ≡ ok valid

validated :
    (upper : Text → Text) (s : TokenSettings) (a v : Asset)
    → validate_asset upper s a ≡ ok v
    → (v.code ≡ upper (trim a.code)) × ((v.issuer ≡ none) ⊎ (v.issuer ≡ Option.map trim a.issuer))
unfolding validate_asset
validated upper s a v h = (ground arith, ground arith)

same_text_lem : (a b : Option Text) → same_text a b ≡ true → a ≡ b
same_text_lem none none h = refl
same_text_lem none (some b) h = absurd (cc)
same_text_lem (some a) none h = absurd (cc)
same_text_lem (some a) (some b) h = ap some ((text_eq_iff a b).0 h)

Result-cases : {A : Type 0} (r : Result A) → ((e : AppError) × (r ≡ err e)) ⊎ ((a : A) × (r ≡ ok a))
Result-cases (err e) = inl (e, refl)
Result-cases (ok a) = inr (a, refl)

Asset-ext : (a b : Asset) → a.code ≡ b.code → a.issuer ≡ b.issuer → a ≡ b
Asset-ext a b code issuer = λ i. record { code = code i; issuer = issuer i }

same_assets :
    (upper : Text → Text) (s : TokenSettings) (expected actual : Asset)
    → same_asset_error upper s expected actual ≡ none
    → (v : Asset) × (validate_asset upper s expected ≡ ok v)
      × (validate_asset upper s actual ≡ ok v)
unfolding same_asset_error
same_assets upper s expected actual h = elim (Result-cases (validate_asset upper s expected)) [
  | inl (e, bad) ↦ absurd (ground (arith, bad))
  | inr (left, good) ↦ elim (Result-cases (validate_asset upper s actual)) [
    | inl (e, bad) ↦ absurd (ground (arith, good, bad))
    | inr (right, fine) ↦
        let same : (text_eq left.code right.code && same_text left.issuer right.issuer) ≡ true =
          ground (arith, good, fine) in
        (
          left,
          good,
          fine
              ∙ ap ok (
                  Asset-ext right left
                    ((text_eq_iff right.code left.code).0 (
                      ground (
                        arith,
                        same,
                        text_eq_iff left.code right.code,
                        text_eq_iff right.code left.code,
                      )))
                    (sym (same_text_lem left.issuer right.issuer (ground (arith, same))))),
        )
  ]
]

agreed_payment_lem :
    (agreed : Option ℕ) (asset : Asset) (amount : Option ℕ) (p : Payment)
    → agreed_payment agreed asset (positive amount) ≡ ok p
    → (p.asset ≡ asset)
      × (amount ≡ some p.amount)
      × (0 < p.amount)
      × ((agreed ≡ none) ⊎ (agreed ≡ some p.amount))
agreed_payment_lem agreed asset none p h = absurd (ground arith)
agreed_payment_lem agreed asset (some zero) p h = absurd (ground arith)
agreed_payment_lem none asset (some (suc n)) p h =
    (ground arith, ground arith, ground arith, ground arith)
agreed_payment_lem (some m) asset (some (suc n)) p h =
    (ground arith, ground arith, ground arith, ground arith)

pub check_payment-IsPayment :
    (upper : Text → Text) (s : TokenSettings) (i : FundedInput) (d : Delivery) (p : Payment)
    → check_payment upper s i d ≡ ok p
    → IsPayment upper s i d p
unfolding check_payment
check_payment-IsPayment upper s i d p h = elim (Result-cases (validate_asset upper s i.asset)) [
  | inl (e, bad) ↦ absurd (ground (arith, bad))
  | inr (asset, good) ↦
      elim (Option-cases (same_asset_error upper s (or_xlm d.escrow_asset) asset)) [
        | inr (e, other) ↦ absurd (ground (arith, good, other))
        | inl same ↦
            let (kept, paid, some_of_it, agreed) =
              agreed_payment_lem d.escrow_amount asset i.amount p (ground (arith, good, same)) in
            let (code, issuer) = validated upper s i.asset asset good in
            let (v, expected, actual) = same_assets upper s (or_xlm d.escrow_asset) asset same in
            let (left, _) = validated upper s (or_xlm d.escrow_asset) v expected in
            let (right, _) = validated upper s asset v actual in
            record {
              amount = paid;
              is_positive = some_of_it;
              agreed = agreed;
              code = ap (λ a. a.code) kept ∙ code;
              issuer = rw kept issuer;
              same_code = rw kept (sym left ∙ right);
              valid = v;
              expected = expected;
              actual = rw kept actual;
            }
      ]
]
