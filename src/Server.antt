-- ===== src/Server.antt =====
-- The server library, src/server.
pub mod Screen
pub mod Output
pub mod FakeScreens
pub mod NativeScreens
pub mod Applications
pub mod Window
pub mod Screenshots
pub mod Screencasts
pub mod QuickOutput
mod Tests
