-- ===== src/Link.antt =====
-- The link emulator of laboratoare/lab-03/link_emulator.
pub mod Queue
pub mod Channel
pub mod Peer
