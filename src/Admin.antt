-- ===== src/Admin.antt =====
-- The admin API: internal/app/handlers_admin.go.
pub mod Answers
pub mod Payloads
pub mod Keys
pub mod Clients
pub mod Reports
pub mod Login
