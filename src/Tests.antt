-- ===== src/Tests.antt =====
-- Concrete runs at which the theorems' hypotheses hold.
mod Fixture
mod Wire
mod Signing
mod Runs
mod Flows
mod Sessions
mod Consent
mod Swap
