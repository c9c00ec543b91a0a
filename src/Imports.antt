-- ===== src/Imports.antt =====
-- apps/backend/src/imports/imports.service.ts: one job, its counters and its batches. The
-- table of jobs is the row of this job. The parser is not in the repository: the records that
-- it gives are an argument. What Postgres says of a row's values, and a fault of a
-- transaction, are arguments too. The spooled file, the memory sampler and the logs are not
-- modelled.
pub mod Batch
pub mod Run
pub mod Keys
pub mod Progress
pub mod Stream
pub mod Calm
pub mod Laws
pub mod Lost
pub mod Failing
mod Tests
