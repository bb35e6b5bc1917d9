-- ===== src/Tests.antt =====
-- Concrete inputs, runs on them, and the theorems at them.
mod Data
mod Catalog
mod Health
mod Preflight
mod Search
mod Auth
mod Ownership
mod Market
mod Egress
mod Routes
mod Cohorts
