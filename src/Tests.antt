-- ===== src/Tests.antt =====
-- Runs of the models on concrete inputs, and instances of the theorems: over the small shop of
-- Tests/Shop.antt, and over a cloud where every call succeeds.
pub mod Shop
mod Laws
mod Delivering
mod Accounts
mod Ordering
mod Loads
mod Serving
mod Racing
mod Calls
mod Numbered
mod Moving
mod Planning
mod Settings
mod Starting
mod Running
