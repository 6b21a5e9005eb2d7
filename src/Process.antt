-- ===== src/Process.antt =====
-- Processes and their scheduler, kernel/process.
pub mod Scheduler
pub mod Loader
pub mod Input
