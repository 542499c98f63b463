-- ===== src/Jobs.antt =====
-- The tracker of job applications: src/modules/jobs.
pub mod Model
pub mod Service
pub mod Controller
