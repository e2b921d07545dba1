-- ===== src/Decoder/Correlator.antt =====
-- decoder/correlator.go: how RTCP, log and NG payloads find the Call-ID of their SIP dialog.
pub mod Search
pub mod Cache
pub mod Sdp
pub mod Rtcp
pub mod Ends
pub mod Log
pub mod Dialog
pub mod Ports
pub mod Lines
pub mod Sample
mod Runs
