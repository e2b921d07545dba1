-- ===== src/Decoder/Machine.antt =====
-- decoder/machine.go, the scanner of the CSeq header, against its grammar decoder/machine.rl.
pub mod Labels
pub mod Tables
pub mod Scan
pub mod Grammar
pub mod Walk
pub mod Front
pub mod Spell
pub mod Invariant
pub mod Reach
pub mod Path
pub mod Below
pub mod Finds
pub mod Contract
pub mod Unique
mod Runs
