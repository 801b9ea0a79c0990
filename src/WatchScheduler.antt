-- ===== src/WatchScheduler.antt =====
-- hub/watch-scheduler.mjs: the watches of watches.json, their creation and their revocation. The file
-- is the list of its watches, an instant is its number of milliseconds, and a unit of a cadence is a
-- text. The packs on disk and the vendored check of a kernel's inputs are parameters.
pub mod Cadence
pub mod File
pub mod Loop
pub mod Distinct
pub mod Spaced
pub mod Tests
