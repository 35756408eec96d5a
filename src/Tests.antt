-- ===== src/Tests.antt =====
-- The theorems at concrete inputs.
mod Fixtures
mod Jobs
mod Handling
mod Providers
mod Outbox
mod Races
mod Running
mod Settings
mod Broker
mod Lives
