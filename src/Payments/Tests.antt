-- ===== src/Payments/Tests.antt =====
-- A payment to Pakistan, on both rails.
use vaultline.Prelude.{◌≡◌, refl, true, none, [], ◌∷◌}
use vaultline.Prelude.Int.{pos}
use vaultline.Common.Texts.{Text, text, same_text}
use vaultline.Payments.{
  OutboundPayment, raast, swift, PaymentFormats, quote_payment, is_pakistani_iban, is_iban, eat,
  is_bic, payment_errors, bic_required, purpose_required, all_of,
}
use vaultline.Payments.Quoted.{Quotes, quote_payment-Quotes}

abbrev iban : Text
iban = text "PK36SCBL0000001123456702"

abbrev payment : OutboundPayment
payment = record {
  amount_minor = pos 500_000;
  currency = text "PKR";
  beneficiary_name = text "Bilal";
  beneficiary_iban = iban;
  beneficiary_bic = none;
  purpose = none;
}

iban_taken : is_pakistani_iban iban ≡ true
unfolding is_pakistani_iban eat same_text
iban_taken = refl

codes_taken : (is_bic (text "SCBLPKKX") ≡ true) × (is_bic (text "SCBLPKKXXXX") ≡ true)
unfolding is_bic eat
codes_taken = (refl, refl)

swift_refuses : payment_errors swift payment ≡ bic_required ∷ purpose_required ∷ []
unfolding payment_errors is_iban eat all_of
swift_refuses = refl

abbrev formats : PaymentFormats
formats = record {
  per_mille = λ n. pos 500;
  to_fixed = λ n. text "5000.00";
  to_fixed_comma = λ n. text "5000,00";
  date = text "260101";
  raast_json = λ reference amount iban name. reference;
}

quote_payment-Quotes_example :
    Quotes formats raast payment (quote_payment formats raast payment (text "TXN-1"))
quote_payment-Quotes_example = quote_payment-Quotes formats raast payment (text "TXN-1")
