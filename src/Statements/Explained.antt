-- ===== src/Statements/Explained.antt =====
-- A statement of a sound bank: statements.controller.ts, statement.bridge.ts, ledger-history.iterator.ts
-- and ledger.service.ts together.
use vaultline.Prelude.{ℕ, List}
use vaultline.Core.Currency
use vaultline.Core.Currency.{Currency}
use vaultline.Transactions.History.{EntryRow, matches, select}
use vaultline.Transactions.History.Export.{five_hundred}

-- The rows of an account, in the order of the table.
abbrev pub own_rows : ℕ → List EntryRow → List EntryRow
own_rows account_id table = select (matches account_id five_hundred) table
