-- ===== src/Launcher.antt =====
-- The launcher (launcher/), which runs the compositor.
pub mod Process
pub mod Modes
mod Tests
