-- ===== src/Ats.antt =====
-- The score of a CV against a job description: src/modules/ats.
pub mod Regex
pub mod Number
pub mod Words
pub mod Keywords
pub mod Sections
pub mod Score
pub mod Analyze
