-- ===== src/Redaction/Masking.antt =====
-- A rule that masks leaves nothing readable at its path (packages/recorder/src/redaction.ts).
pub mod Texts
pub mod Members
pub mod Leaves
pub mod Path
pub mod Rule
