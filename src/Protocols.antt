-- ===== src/Protocols.antt =====
-- crates/detersim-protocols: the example protocols and the encoding of their histories.
pub mod History
pub mod PrimaryBackup
