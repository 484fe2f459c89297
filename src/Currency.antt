-- ===== src/Currency.antt =====
-- src/services/currencyService.ts: which assets are accepted, and when two are the same. `upper` is
-- `String.prototype.toUpperCase`.
use mathlib.Core.Option
use swift_chain_backend.Common.{
  ℕ, Bool, true, false, not, Option, none, some, any, length, if◌then◌else◌, ◌&&◌, ◌||◌, leb, Text,
  text_eq, codes, trim, is_empty,
}
use swift_chain_backend.Delivery.{
  Asset, AppError, bad_request, conflict, unprocessable, Result, ok, err,
}

-- The tokens that the environment names.
pub record TokenSettings : Type 0 where
  pub usdc_issuer : Option Text
  pub native_token_code : Option Text
  pub native_token_issuer : Option Text

abbrev pub xlm : Asset
xlm = record { code = codes "XLM"; issuer = none }

abbrev is_code_char : ℕ → Bool
is_code_char c = (leb 65 c && leb c 90) || (leb 48 c && leb c 57)

-- `/^[A-Z0-9]{1,12}$/`
unfoldable pub is_asset_code : Text → Bool
is_asset_code code =
    leb 1 (length code) && leb (length code) 12 && not (any (λ c. not (is_code_char c)) code)

-- A text that is there and is not empty.
abbrev pub is_truthy : Option Text → Bool
is_truthy none = false
is_truthy (some t) = not (is_empty t)

abbrev pub same_text : Option Text → Option Text → Bool
same_text none none = true
same_text none (some b) = false
same_text (some a) none = false
same_text (some a) (some b) = text_eq a b

-- The issuer of the first supported asset with this code.
unfoldable pub supported_issuer : (Text → Text) → TokenSettings → Text → Option Text
supported_issuer upper s code =
    if text_eq (codes "USDC") code && is_truthy s.usdc_issuer
    then s.usdc_issuer
    else if same_text (Option.map upper s.native_token_code) (some code)
        && is_truthy s.native_token_issuer
    then s.native_token_issuer
    else none

unfoldable pub validate_asset : (Text → Text) → TokenSettings → Asset → Result Asset
unfolding is_asset_code supported_issuer
validate_asset upper s a =
    let code = upper (trim a.code) in
    let issuer = Option.map trim a.issuer in
    let supported = supported_issuer upper s code in
    let plain : Asset = record { code = code; issuer = none } in
    let issued : Asset = record { code = code; issuer = issuer } in
    if not (is_asset_code code)
    then err bad_request
    else if text_eq code (codes "XLM")
    then (if is_truthy issuer then err bad_request else ok plain)
    else if is_truthy supported && is_truthy issuer && same_text issuer supported
    then ok issued
    else err bad_request

-- `assertSameAsset`: the error that it throws, if it does.
unfoldable pub same_asset_error : (Text → Text) → TokenSettings → Asset → Asset → Option AppError
unfolding validate_asset
same_asset_error upper s expected actual = elim (validate_asset upper s expected) [
  | err e ↦ some e
  | ok left ↦ elim (validate_asset upper s actual) [
    | err e ↦ some e
    | ok right ↦
        if text_eq left.code right.code && same_text left.issuer right.issuer
        then none
        else some conflict
  ]
]

-- `assertLockContractAsset`: the error that it throws, if it does.
unfoldable pub lock_contract_asset_error : (Text → Text) → TokenSettings → Asset → Option AppError
unfolding validate_asset
lock_contract_asset_error upper s a = elim (validate_asset upper s a) [
  | err e ↦ some e
  | ok valid ↦ if text_eq valid.code (codes "XLM") then none else some unprocessable
]
