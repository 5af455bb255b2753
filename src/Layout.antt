-- ===== src/Layout.antt =====
-- src/layout.rs: the tables that the layout tables share.
pub mod Words
pub mod ClassDef
pub mod Coverage
