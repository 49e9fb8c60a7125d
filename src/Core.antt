-- ===== src/Core.antt =====
-- modules/core: the currencies and the printed references. (The generator's counter is in
-- Transactions/Ledger/Postings.)
mod Tests
pub mod Currency
pub mod References
