-- ===== src/Protocol/Messages.antt =====
-- crates/oakterm-protocol/src/message.rs, input.rs and render.rs: the messages.
pub mod Session
pub mod Hello
pub mod Notices
pub mod Requests
pub mod Search
pub mod Results
pub mod CopyMode
pub mod Panes
pub mod Splits
pub mod Tabs
pub mod Workspaces
pub mod TabList
pub mod Input
pub mod Prefixed
pub mod Rendering
pub mod Delivered
pub mod Safety
