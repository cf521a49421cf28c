-- ===== src/Ftl.antt =====
-- ftl.c and ftl.h: the flash translation layer. The children below `Types` hold the code in the
-- order of the file; the later ones hold what is proved about it.
pub mod Types
pub mod Victims
pub mod Params
pub mod Table
pub mod Nand
pub mod Lines
pub mod Init
pub mod Pages
pub mod Gc
pub mod Io
pub mod Geometry
pub mod Pointer
pub mod Sample
pub mod Cells
pub mod Mapping
pub mod Assign
pub mod Invalidate
pub mod Drop
pub mod Advance
pub mod Write
pub mod Collect
pub mod Move
pub mod Clean
pub mod Erase
pub mod Reclaim
pub mod Fresh
pub mod Space
pub mod Reserve
pub mod Collector
pub mod Latency
pub mod Read
pub mod Request
pub mod Examples
pub mod Runs
