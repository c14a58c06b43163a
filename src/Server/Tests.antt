-- ===== src/Server/Tests.antt =====
-- The theorems about the compositor's parts at concrete inputs.
mod Applications
mod Windows
mod Recordings
mod Outputs
mod Screens
