-- ===== src/Core/Tests.antt =====
-- The currencies on examples.
use vaultline.Common.Texts.{text}
use vaultline.Entities.{Prefix, dep, trf}
use vaultline.Core.References.{reference_text}
use vaultline.Core.References.Distinct.{issued, AreClocks, AreDistinct, issued-AreDistinct}
use vaultline.Samples.{bank, clock}
use vaultline.Transactions.Ledger.Postings.{Clock}
use vaultline.Prelude.{List, ◌∷◌, map, arith, ◌≡◌, refl, some, [], String}
use vaultline.Core.Currency.{get, currency}

-- A function that is `toUpperCase` on upper-case codes.
abbrev same : String → String
same s = s

rupees : (get same "PKR" []).0 ≡ some (currency "PKR" "Pakistani Rupee" "Rs")
unfolding get
rupees = refl

abbrev calls : List (Clock × Prefix)
calls = (clock, dep) ∷ (clock, trf) ∷ (clock, dep) ∷ []

calls-AreClocks : AreClocks calls
unfolding AreClocks
calls-AreClocks = ground arith

issued-AreDistinct_example : AreDistinct (map (reference_text (text "OCAL")) (issued calls bank))
issued-AreDistinct_example =
    issued-AreDistinct (text "OCAL") calls bank calls-AreClocks (omega arith)
