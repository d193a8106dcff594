-- ===== src/Protocol.antt =====
-- crates/oakterm-protocol: the wire format between the daemon and its clients.
pub mod Bytes
pub mod Utf8
pub mod Wire
pub mod Frame
pub mod LayoutTree
pub mod Kinds
pub mod Delivery
pub mod Messages
mod Examples
