-- ===== src/Platform.antt =====
-- The platform library, src/platform.
pub mod Touch
pub mod Pointer
pub mod Terminal
pub mod Logind
pub mod Keyboard
pub mod InputHandler
mod Tests
