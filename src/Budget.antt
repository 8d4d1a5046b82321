-- ===== src/Budget.antt =====
-- browser/budget_service/budget_database.cc and budget_manager.cc: how much work in the background a site
-- may do. `Defs` has the data, `Database` the cache of budgets, and `Manager` the calls of the sites.
pub mod Defs
pub mod Database
pub mod Manager
pub mod Tokens
pub mod Order
pub mod Predictions
pub mod Renewal
pub mod Forecast
pub mod Replies
pub mod Failures
pub mod Reservations
mod Examples
