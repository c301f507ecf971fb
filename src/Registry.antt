-- ===== src/Registry.antt =====
-- The registry: the database tables (backend/app/models), the session of a request
-- (backend/app/database.py), authentication, accounts, benchmarks, versions, reviews and reports.
pub mod Db
pub mod Session
pub mod Auth
pub mod Account
pub mod SignIn
pub mod Providers
pub mod Callback
pub mod Benchmarks
pub mod Versions
pub mod Citations
pub mod Published
pub mod Reviews
pub mod Reports
