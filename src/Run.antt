-- ===== src/Run.antt =====
-- hub/run.mjs: the run engine. The children hold its data, the plan of a manifest, the tables and
-- the executor.
pub mod Manifest
pub mod Order
pub mod Plan
pub mod Tables
pub mod Engine
pub mod Tests
