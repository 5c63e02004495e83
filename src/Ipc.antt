-- ===== src/Ipc.antt =====
-- src/ipc/shared_memory_channel.cpp: a byte ring of frames in shared memory, behind a local outbox.
pub mod Bytes
pub mod Text
pub mod Layout
pub mod Channel
pub mod Send
pub mod Recv
pub mod Open
pub mod Geometry
pub mod Frames
pub mod Image
pub mod Write
pub mod Append
pub mod Read
pub mod Flush
pub mod Ready
pub mod Link
pub mod Opened
pub mod Stall
pub mod Overflow
mod Tests
