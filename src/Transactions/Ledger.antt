-- ===== src/Transactions/Ledger.antt =====
-- modules/transactions/ledger.service.ts: the only code that changes balances. A call takes the
-- clock's readings and the bank, and returns its result with the bank after it.
--
-- `Tables` has the reads and writes of the two tables, `Postings` the entry that every operation
-- writes, `Operations` the public methods. The proofs stand in the other children.
mod Tests
pub mod Tables
pub mod Postings
pub mod Soundness
pub mod Operations
pub mod Reversal
pub mod Movements
pub mod Settlement
pub mod Transfers
pub mod Reversals
pub mod Undo
pub mod Limits
