-- ===== src/Tests.antt =====
-- Concrete inputs, runs of the code on them, and the theorems at them.
mod LoopTests
mod RouterTests
mod LinkTests
mod MailTests
mod StaticTests
mod HttpTests
mod QueueTests
mod ChatTests
mod BrokerTests
mod ExamTests
mod CopyTests
mod PingTests
mod LibraryTests
