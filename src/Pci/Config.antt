-- ===== src/Pci/Config.antt =====
-- nvmev_pci_read and nvmev_pci_write: the configuration space, a page of bytes. A local variable has
-- junk in the bytes that a memcpy does not set; `junk` stands for them.
use femu_on_virt.Base.{
  ℕ, zero, suc, ◌+◌, ◌-◌, ◌*◌, ◌/◌, ◌%◌, ◌^◌, Bool, true, false, Option, none, some, ◌==◌, ltb,
  if◌then◌else◌, update,
}
use Prim.Native.Nat.{bit_and, bit_or}

pub record Space : Type 0 where
  pub bytes : ℕ → ℕ
  pub msix_enabled : Bool

-- memcpy between a little-endian word and `size` bytes.
unfoldable pub load : ℕ → (ℕ → ℕ) → ℕ → ℕ → ℕ
load zero bytes at junk = junk
load (suc size) bytes at junk = bytes at + 2 ^ 8 * load size bytes (at + 1) junk

unfoldable pub store : ℕ → ℕ → (ℕ → ℕ) → ℕ → ℕ → ℕ
store zero val bytes at = bytes
store (suc size) val bytes at = store size (val / 2 ^ 8) (update bytes at (val % 2 ^ 8)) (at + 1)

-- The result is none for an error code.
unfoldable pub pci_read : ℕ → ℕ → ℕ → ℕ → Space → Option ℕ
pci_read devfn at size junk s = if devfn == 0 then some (load size s.bytes at junk) else none

-- The writable bits of the header.
unfoldable pub header_mask : ℕ → ℕ
header_mask target =
    if target == 0x0
    then 0x0
    else if target == 0x04
    then 0x0547
    else if target == 0x06
    then 0xF200
    else if target == 0x09
    then 0x0
    else if target == 0x0d
    then 0x0
    else if target == 0x0e
    then 0x0
    else if target == 0x0f
    then 0x40
    else if target == 0x10
    then 0xFFFFC000
    else if target == 0x18
    then 0x0
    else if target == 0x1c
    then 0x0
    else if target == 0x20
    then 0x0
    else if target == 0x24
    then 0x0
    else if target == 0x28
    then 0x0
    else if target == 0x2c
    then 0x0
    else if target == 0x34
    then 0x0
    else if target == 0x3c
    then 0xF
    else if target == 0x3e
    then 0x0
    else if target == 0x3f
    then 0x0
    else 0xFFFFFFFF

-- The writable bits of the MSI-X capability, by the offset in it.
unfoldable pub msix_mask : ℕ → ℕ
msix_mask target =
    if target == 0
    then 0x0
    else if target == 2
    then 0xC000
    else if target == 4
    then 0x0
    else if target == 8
    then 0x0
    else 0xFFFFFFFF

-- OFFS_PCI_PM_CAP, OFFS_PCI_MSIX_CAP and OFFS_PCIE_CAP
abbrev pub offs_pci_pm_cap : ℕ
offs_pci_pm_cap = 0x40

abbrev pub offs_pci_msix_cap : ℕ
offs_pci_msix_cap = 0x50

abbrev pub offs_pcie_cap : ℕ
offs_pcie_cap = 0x60

unfoldable pub write_mask : ℕ → ℕ
unfolding header_mask msix_mask
write_mask at =
    if ltb at offs_pci_pm_cap
    then header_mask at
    else if ltb at offs_pci_msix_cap
    then 0xFFFFFFFF
    else if ltb at offs_pcie_cap
    then msix_mask (at - offs_pci_msix_cap)
    else 0xFFFFFFFF

-- Offset 2 of the MSI-X capability: the old value has both of its writable bits.
unfoldable pub enables_msix : ℕ → ℕ → Bool
enables_msix at val = if at == offs_pci_msix_cap + 2 then bit_and val 0xC000 == 0xC000 else false

-- `(val & (~mask)) | (new & mask)`
unfoldable pub masked : ℕ → ℕ → ℕ → ℕ
masked mask val new = bit_or (bit_and val (2 ^ 32 - 1 - mask)) (bit_and new mask)

-- The device number is not looked at.
unfoldable pub pci_write : ℕ → ℕ → ℕ → ℕ → ℕ → Space → Space
unfolding enables_msix masked write_mask load store
pci_write devfn at size new junk s =
    let val = load size s.bytes at junk in
    record {
      bytes = store size (masked (write_mask at) val new) s.bytes at;
      msix_enabled = if enables_msix at val then true else s.msix_enabled;
    }
