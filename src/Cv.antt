-- ===== src/Cv.antt =====
-- The CV editor: src/modules/cv.
pub mod Model
pub mod Slug
pub mod Section
pub mod Items
pub mod Sections
pub mod Place
pub mod Editor
pub mod Duplicate
pub mod Upserts
pub mod Share
pub mod Controller
