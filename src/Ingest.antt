-- ===== src/Ingest.antt =====
-- Idempotent deliveries and billing: apps/backend/src/ingest/ingest.service.ts.
pub mod Store
pub mod Write
pub mod Guard
mod Effect
mod Once
mod Guarded
mod Sound
mod Race
mod Counters
mod Ledger
mod Billing
mod Tests
