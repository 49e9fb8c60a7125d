-- ===== src/Payments.antt =====
-- modules/payments/payment-rail.abstract-factory.ts: the two rails and the quote of a payment. The regular
-- expressions are written out on the codes of a text. Amounts in texts, the date, JSON and the rounded share of
-- an amount (a double) are parameters.
mod Tests
pub mod Quoted
use vaultline.Prelude.{
  ℕ, zero, suc, Bool, true, false, Option, none, some, List, [], ◌∷◌, ◌++◌, if◌then◌else◌, leb, not,
  ◌&&◌, ◌||◌, length, String,
}
use vaultline.Prelude.Int.{ℤ, pos, ◌+ℤ◌, ltb_ℤ}
use vaultline.Common.Texts.{Text, text, same_text}

pub record OutboundPayment : Type 0 where
  pub amount_minor : ℤ
  pub currency : Text
  pub beneficiary_name : Text
  pub beneficiary_iban : Text
  pub beneficiary_bic : Option Text
  pub purpose : Option Text

pub data Rail : Type 0 where
  raast swift : Rail

pub data PaymentError : Type 0 where
  only_pkr not_pakistani_iban above_raast_limit bic_required invalid_iban purpose_required :
      PaymentError

-- `\d`, `[A-Z]` and `[A-Z0-9]`
abbrev pub is_digit : ℕ → Bool
is_digit c = leb 48 c && leb c 57

abbrev pub is_upper : ℕ → Bool
is_upper c = leb 65 c && leb c 90

abbrev pub is_upper_or_digit : ℕ → Bool
is_upper_or_digit c = is_upper c || is_digit c

-- So many characters of a class, and the text behind them.
unfoldable pub eat : (ℕ → Bool) → ℕ → Text → Option Text
eat test zero s = some s
eat test (suc n) [] = none
eat test (suc n) (c ∷ s) = let rest = eat test n s in if test c then rest else none

abbrev pub then_eat : (ℕ → Bool) → ℕ → Option Text → Option Text
then_eat test n none = none
then_eat test n (some s) = eat test n s

unfoldable pub all_of : (ℕ → Bool) → Text → Bool
all_of test [] = true
all_of test (c ∷ s) = test c && all_of test s

abbrev pub ends_there : Option Text → Bool
ends_there (some []) = true
ends_there _ = false

-- The text behind `PK`.
abbrev pub behind_pk : Text → Option Text
behind_pk (p ∷ k ∷ s) = if same_text (p ∷ k ∷ []) (text "PK") then some s else none
behind_pk _ = none

-- `/^PK\d{2}[A-Z]{4}\d{16}$/`
unfoldable pub is_pakistani_iban : Text → Bool
unfolding eat same_text
is_pakistani_iban s =
    ends_there (then_eat is_digit 16 (then_eat is_upper 4 (then_eat is_digit 2 (behind_pk s))))

abbrev pub rest_is : (Text → Bool) → Option Text → Bool
rest_is test none = false
rest_is test (some s) = test s

-- `[A-Z0-9]{10,30}`, to the end.
abbrev pub is_account_part : Text → Bool
is_account_part s = all_of is_upper_or_digit s && (leb 10 (length s) && leb (length s) 30)

-- `/^[A-Z]{2}\d{2}[A-Z0-9]{10,30}$/`
unfoldable pub is_iban : Text → Bool
unfolding eat all_of
is_iban s = rest_is is_account_part (then_eat is_digit 2 (eat is_upper 2 s))

-- Nothing, or three characters more.
abbrev pub is_branch_part : Text → Bool
is_branch_part [] = true
is_branch_part s = ends_there (eat is_upper_or_digit 3 s)

-- `/^[A-Z]{6}[A-Z0-9]{2}([A-Z0-9]{3})?$/`
unfoldable pub is_bic : Text → Bool
unfolding eat
is_bic s = rest_is is_branch_part (then_eat is_upper_or_digit 2 (eat is_upper 6 s))

abbrev pub error_unless : Bool → PaymentError → List PaymentError
error_unless true e = []
error_unless false e = e ∷ []

-- `!p.beneficiaryBic || !regex.test(p.beneficiaryBic)`, negated. An empty text is no code.
abbrev pub has_bic : Option Text → Bool
has_bic none = false
has_bic (some s) = is_bic s

abbrev pub is_given : Option Text → Bool
is_given none = false
is_given (some []) = false
is_given (some (c ∷ s)) = true

abbrev pub raast_limit_minor : ℤ
raast_limit_minor = pos 100_000_000

-- `RaastValidator.validate`, `SwiftValidator.validate`
unfoldable pub payment_errors : Rail → OutboundPayment → List PaymentError
unfolding same_text is_pakistani_iban is_bic is_iban
payment_errors raast p =
    error_unless (same_text p.currency (text "PKR")) only_pkr
    ++ (error_unless (is_pakistani_iban p.beneficiary_iban) not_pakistani_iban
        ++ error_unless (not (ltb_ℤ raast_limit_minor p.amount_minor)) above_raast_limit)
payment_errors swift p =
    error_unless (has_bic p.beneficiary_bic) bic_required
    ++ (error_unless (is_iban p.beneficiary_iban) invalid_iban
        ++ error_unless (is_given p.purpose) purpose_required)

-- What the rails use of the language: `Math.round(amount * 0.001)`, `(amount / 100).toFixed(2)`, the same with a
-- comma, the date as six digits, and the JSON of the RAAST message.
pub record PaymentFormats : Type 0 where
  pub per_mille : ℤ → ℤ
  pub to_fixed : ℤ → Text
  pub to_fixed_comma : ℤ → Text
  pub date : Text
  pub raast_json : (reference amount iban name : Text) → Text

module _ (formats : PaymentFormats) where
  open formats use {per_mille, to_fixed, to_fixed_comma, date, raast_json}

  -- `feeMinor` of the two calculators.
  unfoldable pub fee_minor : Rail → OutboundPayment → ℤ
  fee_minor raast p = pos 0
  fee_minor swift p = pos 250_000 +ℤ per_mille p.amount_minor

  abbrev pub or_undefined : Option Text → Text
  or_undefined none = text "undefined"
  or_undefined (some s) = s

  abbrev pub new_line : Text
  new_line = 10 ∷ []

  -- `format` of the two formatters.
  unfoldable pub payment_message : Rail → OutboundPayment → Text → Text
  payment_message raast p reference =
      raast_json reference (to_fixed p.amount_minor) p.beneficiary_iban p.beneficiary_name
  payment_message swift p reference =
      text ":20:"
      ++ (reference
          ++ (new_line
              ++ (text ":32A:"
                  ++ (date
                      ++ (p.currency
                          ++ (to_fixed_comma p.amount_minor
                              ++ (new_line
                                  ++ (text ":57A:"
                                      ++ (or_undefined p.beneficiary_bic
                                          ++ (new_line
                                              ++ (text ":59:/"
                                                  ++ (p.beneficiary_iban
                                                      ++ (new_line
                                                          ++ (p.beneficiary_name
                                                            ++ (new_line
                                                            ++ (text ":70:"
                                                            ++ or_undefined
                                                            p.purpose))))))))))))))))

  -- `settlementTime`
  abbrev pub settlement_time : Rail → String
  settlement_time raast = "Instant (seconds)"
  settlement_time swift = "1-3 business days"

  pub data Quote : Type 0 where
    rejected : Rail → List PaymentError → Quote
    quoted : Rail → (fee : ℤ) (settlement : String) (message : Text) → Quote

  unfoldable pub quote_checked : Rail → OutboundPayment → Text → List PaymentError → Quote
  unfolding fee_minor payment_message
  quote_checked rail p reference [] =
      quoted rail (fee_minor rail p) (settlement_time rail) (payment_message rail p reference)
  quote_checked rail p reference (e ∷ errors) = rejected rail (e ∷ errors)

  -- `quotePayment`, with the factory that `railFactoryFor` gives for the rail.
  unfoldable pub quote_payment : Rail → OutboundPayment → Text → Quote
  unfolding quote_checked payment_errors
  quote_payment rail p reference = quote_checked rail p reference (payment_errors rail p)
