-- ===== src/Worker.antt =====
-- internal/worker: the jobs that clean up.
pub mod Runner
pub mod Jobs
pub mod Purge
pub mod Retention
