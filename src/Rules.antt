-- ===== src/Rules.antt =====
-- internal/rules/rules.go: the deterministic rules of the world. The children Units, Realms, Life,
-- Travel and Reward define the code, and the others prove its properties.
pub mod Units
pub mod Realms
pub mod Life
pub mod Travel
pub mod Reward
pub mod Table
pub mod Death
pub mod Eligible
pub mod Convert
pub mod Grid
pub mod Journey
pub mod Tests
