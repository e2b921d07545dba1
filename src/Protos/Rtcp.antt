-- ===== src/Protos/Rtcp.antt =====
-- protos/rtcp.go: the RTCP parser.
pub mod Packet
pub mod Parse
pub mod Bounds
pub mod Blocks
pub mod Sections
pub mod Reports
mod Runs
