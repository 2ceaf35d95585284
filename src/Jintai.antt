-- ===== src/Jintai.antt =====
-- The pages of the mall for properties, jintai-property/h5, and those of its administrators,
-- jintai-property/admin.
pub mod Home
pub mod Admin
