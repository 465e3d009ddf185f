-- ===== src/Payload.antt =====
-- shared/protocol/include/protocol/payload.h and shared/protocol/src/payload.c: one child for each
-- payload, and one for the character arrays that two of them carry.
pub mod Chars
pub mod SystemStats
pub mod GitStatus
pub mod Notification
pub mod Control
pub mod Calls
mod Tests
