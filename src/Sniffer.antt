-- ===== src/Sniffer.antt =====
-- The package sniffer: where packets are captured.
pub mod Buffers
pub mod Run
pub mod Passes
pub mod Files
pub mod Dump
pub mod Rotation
pub mod Live
pub mod Setup
mod Runs
