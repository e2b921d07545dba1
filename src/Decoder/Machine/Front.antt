-- ===== src/Decoder/Machine/Front.antt =====
-- decoder/machine.go, states 1 to 14: the part of the grammar in front of the method.
pub mod Stages
pub mod Name
pub mod Number
pub mod Moves
