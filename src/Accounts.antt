-- ===== src/Accounts.antt =====
-- modules/accounts: the life of an account, its products and the reports over accounts.
mod Tests
pub mod State
pub mod Products
pub mod Factory
pub mod Service
pub mod Numbers
pub mod Reads
pub mod Interest
pub mod MonthEnd
pub mod Portfolio
