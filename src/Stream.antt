-- ===== src/Stream.antt =====
-- src/lib/sse.ts: how the browser reads the answer stream.
pub mod Frames
pub mod Chunks
pub mod Events
pub mod Order
pub mod Protocol
pub mod Writer
pub mod Written
pub mod Reading
pub mod Writing
pub mod Answers
pub mod Replays
pub mod WriterExamples
pub mod Examples
