-- ===== src/Examples.antt =====
-- Concrete instances of what the development takes as parameters, and runs of its theorems on them.
pub mod Codec
pub mod World
pub mod Auth
pub mod Session
pub mod Billing
pub mod Quota
pub mod Provider
pub mod CvWorld
pub mod Cv
pub mod Jobs
pub mod Ats
pub mod AtsCall
