-- ===== src/Host.antt =====
-- apps/desktop/src: the companion program on the host, with a child for each of its services.
mod Lists
pub mod Text
mod Tests
pub mod Config
pub mod Git
pub mod System
pub mod Notifications
pub mod Transport
pub mod Http
pub mod Frames
pub mod Main
pub mod Session
