-- ===== src/Host.antt =====
-- The host's side of a completion ring, as the NVMe specification has it, and the bounded first-in
-- first-out queue that the ring of io.c and the one of admin.c implement with it.
pub mod Reader
pub mod Fifo
