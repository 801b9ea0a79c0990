-- ===== src/Connector.antt =====
-- hub/connector.mjs: the egress boundary of the connectors. The children hold the addresses and
-- the ranges that are denied, the table of pinned hostnames, the loop that every call goes
-- through, and what holds of them.
pub mod Addresses
pub mod Denied
pub mod Pins
pub mod Pinned
pub mod Egress
pub mod Told
pub mod Choke
pub mod Ends
pub mod Tests
