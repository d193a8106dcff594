-- ===== src/Terminal.antt =====
-- crates/oakterm-terminal: the scrollback of a pane.
pub mod HotBuffer
mod Examples
