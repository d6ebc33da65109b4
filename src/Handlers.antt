-- ===== src/Handlers.antt =====
-- src/objects/handlers/*.cpp, in four groups.
pub mod Plain
pub mod Channels
pub mod Delivery
pub mod Membership
