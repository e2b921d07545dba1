-- ===== src/Ownlayers/Sip.antt =====
-- ownlayers/sip.go: the SIP layer.
pub mod Words
pub mod Decode
pub mod Cases
pub mod Headers
pub mod Lines
pub mod Messages
mod Runs
