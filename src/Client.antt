-- ===== src/Client.antt =====
-- The client library, src/client.
pub mod Shm
pub mod ShmFormats
pub mod Buffer
pub mod ShmPool
pub mod Registry
pub mod Screencast
mod Tests
