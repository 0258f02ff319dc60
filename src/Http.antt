-- ===== src/Http.antt =====
-- The HTTP client of laboratoare/lab-10.
pub mod Buffer
pub mod Client
pub mod Requests
