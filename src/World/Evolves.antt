-- ===== src/World/Evolves.antt =====
-- How the world of internal/biz/core.go may change: event logs only grow, by entries with fresh and
-- rising numbers; bounds only widen; roles stay, with their names, and their counters only grow.
pub mod Basics
pub mod Steps
pub mod Placed
pub mod Lives
pub mod Actions
pub mod Commands
pub mod Talks
pub mod Scans
pub mod Reads
pub mod Histories
