-- ===== src/HaGate.antt =====
-- hub/ha-gate.mjs: the gate between the run engine and the human-accountability store. The children
-- hold the check of a step and the scan for a held one, the signatures taken in and made, and what
-- holds of them.
pub mod Check
pub mod Attest
pub mod Signed
pub mod Held
pub mod Tests
