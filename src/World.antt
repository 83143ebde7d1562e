-- ===== src/World.antt =====
-- internal/biz/core.go: the world authority.
pub mod Host
pub mod Model
pub mod Log
pub mod Place
pub mod Bond
pub mod Fate
pub mod Crossing
pub mod Settle
pub mod Snapshot
pub mod Action
pub mod Moves
pub mod Gifts
pub mod Scan
pub mod Talk
pub mod Accounts
pub mod Request
pub mod Replay
pub mod Repeat
pub mod Evolves
pub mod Books
pub mod Tests
