-- ===== src/Tests.antt =====
-- The theorems at concrete data: a simulated system and messages in little-endian byte order.
mod Endless
mod Mock
mod Wire
mod Replies
mod Server
mod Served
mod Original
mod Reader
mod Sizes
mod Interop
