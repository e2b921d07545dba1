-- ===== src/Decoder/Machine/Tables.antt =====
-- decoder/machine.go: the switch of every state.
pub mod Header
pub mod AckToInvite
pub mod MessageToOptions
pub mod PrackToUpdate
