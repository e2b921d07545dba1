-- ===== src/Protos.antt =====
-- The package protos: the bodies of RTCP, DNS and other packets.
pub mod Rtcp
