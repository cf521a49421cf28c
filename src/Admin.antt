-- ===== src/Admin.antt =====
-- The admin queue: admin.c.
pub mod Types
pub mod Queues
pub mod Identify
pub mod Requests
pub mod Answers
pub mod Progress
pub mod Delivery
pub mod Batch
pub mod Silent
pub mod Kept
pub mod Features
pub mod Roundtrip
pub mod Examples
