-- ===== src/Router.antt =====
-- tema1: the router.
pub mod ArpTable
pub mod Checksum
pub mod Forward
pub mod Frames
pub mod MainLoop
pub mod Queue
pub mod RouteTable
