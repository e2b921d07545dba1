-- ===== src/Decoder/Process.antt =====
-- decoder/decoder.go: `Process`.
pub mod Payload
pub mod Modes
pub mod Calls
pub mod Capture
pub mod Front
pub mod Filters
pub mod Hands
pub mod Whole
pub mod Ends
pub mod Total
pub mod Duplicates
pub mod Keeps
pub mod Repeats
mod Runs
pub mod Sample
mod Examples
