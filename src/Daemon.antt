-- ===== src/Daemon.antt =====
-- crates/oakterm-daemon: the parts that join the multiplexer and the protocol.
pub mod WireTree
mod Examples
