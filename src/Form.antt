-- ===== src/Form.antt =====
-- lib/libform: the check of fields that hold a word or an integer.
pub mod Integer
pub mod Word
mod Tests
