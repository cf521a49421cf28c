-- ===== src/Driver.antt =====
-- main.c: the module's configuration, its start, the doorbells, the dispatcher's loop, and the files
-- under /proc.
pub mod Config
pub mod Doorbells
pub mod Files
pub mod Start
pub mod Loaded
pub mod Started
pub mod Examples
