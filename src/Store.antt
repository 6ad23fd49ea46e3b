-- ===== src/Store.antt =====
-- The stores of internal/store: one module for each file, over the tables of `Server`.
mod Examples
pub mod Rows
pub mod State
pub mod Keys
pub mod Models
pub mod Logs
pub mod DownstreamKeys
pub mod Admin
pub mod Stats
pub mod Migrate
pub mod Sound
