-- ===== src/Manager.antt =====
-- manager: who signs in to the console, with what password and for how long; the entities of the calls
-- and the periods of the reports.
pub mod Throttle
pub mod Users
pub mod Session
pub mod Accounts
pub mod Login
pub mod Units
pub mod Periods
mod Tests
