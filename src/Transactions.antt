-- ===== src/Transactions.antt =====
-- modules/transactions: the validation chain, the ledger, decorated transfers and commands.
mod Tests
pub mod Validation
pub mod Ledger
pub mod Transfer
pub mod History
pub mod Commands
