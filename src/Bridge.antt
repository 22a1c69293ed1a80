-- ===== src/Bridge.antt =====
-- The bridge between the laptop and the rover (bridge/).
pub mod Wire
pub mod Values
pub mod Timing
pub mod Dicts
pub mod Server
pub mod Connection
pub mod Serving
pub mod Client
pub mod Link
mod Tests
