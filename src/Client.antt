-- ===== src/Client.antt =====
-- crates/oakterm: the parts of the client that are modelled.
pub mod CopyMotion
mod Examples
