-- ===== src/Tests.antt =====
-- The theorems at concrete inputs, and runs of the executable definitions.
mod Fixture
mod Metadata
mod Storage
mod Requests
mod Services
mod Http
mod Upkeep
mod Pushes
mod Referrals
mod Contracts
mod Programs
