-- ===== src/Protocol/Messages/Delivered.antt =====
-- message.rs, input.rs, render.rs: the messages by their subject, from the sender to the receiver.
pub mod Infrastructure
pub mod PaneMessages
pub mod CopyModeMessages
pub mod SplitMessages
pub mod TabMessages
pub mod InputMessages
