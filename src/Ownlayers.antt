-- ===== src/Ownlayers.antt =====
-- The package ownlayers: decoders for the payloads that gopacket has no layer for.
pub mod Rtp
pub mod Sip
