-- ===== src/Scripts.antt =====
-- src/scripts/: the shaping of Arabic and Syriac letters, which take the form that their neighbours
-- ask for.
pub mod Joining
pub mod Arabic
pub mod Syriac
