-- ===== src/Annotations.antt =====
-- The annotation store of the extension: its records and its rules (model.js, store.js).
pub mod Record
pub mod Model
pub mod Store
pub mod Examples
