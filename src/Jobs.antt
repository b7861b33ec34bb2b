-- ===== src/Jobs.antt =====
-- The jobs (internal/jobs): what a worker does for a reservation after its request was accepted.
pub mod Common
pub mod Noop
pub mod Aws
pub mod Azure
pub mod Gcp
pub mod Progress
pub mod Endings
pub mod Outcomes
pub mod Bodies
pub mod Launches
pub mod Retries
