-- ===== src/Decoder.antt =====
-- decoder: what turns a captured payload into a packet for the output.
pub mod Ng
pub mod Correlator
pub mod Process
pub mod Machine
