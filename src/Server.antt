-- ===== src/Server.antt =====
-- internal/service and the use cases of internal/biz/world.go: what stands between the transports
-- and the world authority.
mod Tests
pub mod Fault
pub mod Usecase
pub mod Wire
pub mod Door
pub mod Handlers
pub mod Message
pub mod Carried
pub mod Served
pub mod Requests
pub mod Errors
pub mod Refused
pub mod Expired
pub mod Closed
pub mod Stream
pub mod Delivered
pub mod Traffic
pub mod Deadlines
