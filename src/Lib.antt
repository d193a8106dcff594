-- ===== src/Lib.antt =====
-- oakterm, a terminal emulator with a daemon that keeps the panes: the core of its multiplexer,
-- the frames and the messages of its protocol, the scrollback that a pane keeps in memory, and the
-- cursor motions of copy mode.
--
-- Parts and files. Paths of the program are from the root of the repository.
--   Mux/Layout and below: crates/oakterm-mux/src/layout.rs, the tree of panes. `LayoutNode` and
--     `Children` are the enum and the vector of weighted children, and a container's two fields
--     stand in the constructor. `flatten`, `validate`, `pane_ids` and `contains` have the names of
--     the methods.
--   Mux/Geometry and below: crates/oakterm-mux/src/geometry.rs, the sites of splits, the borders
--     between panes, the rectangles, and the preview of a split.
--   Mux/Ops and below: crates/oakterm-mux/src/ops.rs, `split`, `close`, `resize` and `swap`.
--   Mux/Tabs and below: the tabs of crates/oakterm-mux/src/state.rs, with `tab_` before the names
--     of the methods.
--   Mux/State and below: the workspaces and `MultiplexerState` of the same file. State.antt and
--     State/Operations.antt hold the operations, the other files the invariant, what each
--     operation does to a state that satisfies it, and in State/Reach the sequences of calls.
--   Mux/Examples: decimal weights to run the model on, and the theorems at concrete trees and
--     states.
--   Protocol/Frame and below: crates/oakterm-protocol/src/frame.rs, the frames of the connection
--     between daemon and clients, with `decode` and `encode` for the methods of `FrameCodec` on a
--     buffer. Protocol/Bytes has the little-endian encodings.
--   Protocol/Wire and below: what the messages of crates/oakterm-protocol/src/message.rs share: the
--     enums, texts, numbers at an offset, guards of the length and loops over a list, with the laws
--     of reading behind an offset (Wire/Offsets, Wire/Behind), of lists (Wire/Sequences) and of
--     guards (Wire/Safety).
--   Protocol/Messages and below: the messages of message.rs, input.rs and render.rs. `encode_x`,
--     `decode_x` and `frame_x` are the methods `encode`, `decode` and `to_frame` of the message x.
--     Each file has the proofs of its messages below it, RoundTrip and Safety.
--   Protocol/LayoutTree and below: the layout tree of message.rs. Protocol/Kinds: the numbers of the
--     messages. Protocol/Delivery: a payload in a frame, from sender to receiver.
--   Protocol/Examples: concrete frames and messages.
--   Daemon/WireTree: `to_wire_tree` of crates/oakterm-daemon/src/requests/layout.rs.
--   Client/CopyMotion and below: crates/oakterm/src/copy_motion.rs, where a motion of copy mode puts
--     the cursor. CopyMotion/Bounds has the steps of a scan, CopyMotion/Scans the loops, and
--     CopyMotion/Landing and CopyMotion/Words the motions.
--   Terminal/HotBuffer and below: crates/oakterm-terminal/src/scroll/hot_buffer.rs, the recent rows
--     of a pane, and Terminal/Examples a small buffer.
--   F32: the operations of f32 that the code uses, as a record. Prelude: helpers.
--
-- How they interact. A tab owns a layout tree, a workspace owns tabs, and the multiplexer owns
-- workspaces and the allocators of ids. An operation of the multiplexer finds the tab of a pane,
-- runs the tab's operation, which runs that of the tree, and then restores the indices and the
-- focus. Errors pass through all layers. A message is encoded to a payload, which a frame carries
-- over the connection; the receiver decodes the frame and then the payload. The layout tree of a
-- tab is turned into the tree of the protocol and sent as JSON. The scrollback is independent: the
-- rows that a push returns go to the archive.
--
-- State and errors. A method on `&mut self` is a function to the new state; on an error the caller
-- keeps the old one, since each method checks before it changes anything. A result is an
-- `Outcome`: `ok`, `err` with the `LayoutError` of the code, or `panicked` for an index out of
-- range, a failed `expect` and an exhausted id space. `debug_assert!` is left out, as in a release
-- build. In Protocol a result is an `IoResult`, with the kind of the `io::Error`, or `panicked` for
-- an index out of range.
--
-- Texts and bytes. A `String` is the list of its UTF-8 bytes, and `is_utf8` is the test of
-- `String::from_utf8`. The tables of Unicode are a parameter. Signed integers are read from their two's complement at 16, 32 and 64 bits.
-- The JSON library is a parameter: a function to the bytes of a tree and one from bytes, and the
-- theorem that needs it assumes that the second gives back the tree at hand.
--
-- Numbers. Ids are native naturals. The allocators stop at `u32::MAX` as `checked_add` does, and
-- `saturating_add` is written out. The sums of the scrollback wrap at 64 bits, and the theorems say
-- when they do not. The operations of f32 are a parameter, and no theorem assumes a
-- law of it but one: the ends of the clamp in `resize` are in order, which holds of IEEE numbers
-- because `max` with zero returns a number that is not negative, also for NaN.
--
-- Loops. A loop that descends a tree or goes through a list is a structural recursion. The scans of
-- copy mode go from cell to cell on fuel: each step leaves fewer cells before the edge of the
-- region, so fuel for every cell is enough, whatever the rows hold.
--
-- Not modelled: the text of error messages, the accessors that only read a field, the bit tests of
-- the search flags, the other modes of the client, the handlers of the daemon that act on the messages, the rest of the terminal
-- emulation, the I/O of the daemon, the renderer, and the configuration in Lua.
pub mod Prelude
pub mod F32
pub mod Mux
pub mod Protocol
pub mod Terminal
pub mod Daemon
pub mod Client
