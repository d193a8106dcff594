-- ===== src/Mux.antt =====
-- crates/oakterm-mux: the multiplexer's layout trees, tabs and workspaces.
pub mod Outcome
pub mod Layout
pub mod Geometry
pub mod Ops
pub mod Tabs
pub mod State
pub mod Examples
