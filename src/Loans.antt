-- ===== src/Loans.antt =====
-- modules/loans: drafts with undo, the validated application, the approval workflow, and the service.
mod Tests
pub mod Builder
pub mod Approval
pub mod Drafts
pub mod Bureau
pub mod Service
