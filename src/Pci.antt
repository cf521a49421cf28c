-- ===== src/Pci.antt =====
-- The PCI device: pci.c.
pub mod Bars
pub mod Ready
pub mod Machine
pub mod Faults
pub mod Config
pub mod Space
pub mod Examples
