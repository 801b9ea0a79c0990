-- ===== src/Matter.antt =====
-- hub/matter-store.mjs: matters, their bindings to what the other stores hold, and the export at
-- their close. The children hold the identifiers, the store and its operations, the export and the
-- two texts that it carries, and what holds of them.
pub mod Ulid
pub mod Store
pub mod Calls
pub mod Kept
pub mod Sound
pub mod Texts
pub mod Export
pub mod Closed
pub mod Closing
pub mod Pdf
pub mod EBundle
pub mod Offsets
pub mod Dat
pub mod Tests
