-- ===== src/Journal.antt =====
-- updater/ApplyJournal.cpp: what the updater records of a transaction, so that it can be resumed or
-- rolled back after a crash.
pub mod States
pub mod Fields
pub mod Operation
pub mod RoundTrip
