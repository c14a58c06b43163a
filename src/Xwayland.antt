-- ===== src/Xwayland.antt =====
-- src/plugins/extensions/xwayland: the X server for clients that do not speak Wayland.
pub mod Server
mod Tests
