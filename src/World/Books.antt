-- ===== src/World/Books.antt =====
-- What the reads of internal/biz/core.go return, and what the records keep.
pub mod Pages
pub mod Restore
pub mod Sessions
pub mod Shares
pub mod Cells
pub mod Chance
pub mod Moments
