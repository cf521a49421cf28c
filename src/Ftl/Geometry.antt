-- ===== src/Ftl/Geometry.antt =====
-- The layout that ssd_init_params fixes, and the addresses within it (ppa2pgidx, valid_ppa and the
-- bit fields of `struct ppa`).
use femu_on_virt.Base.{ℕ, ◌+◌, ◌*◌, ◌^◌, ◌≤◌, ◌<◌, ◌≡◌, ◌↔◌, true, arith}
use femu_on_virt.Ftl.Types.{Ppa, SsdParams}
use femu_on_virt.Ftl.Params.{ssd_init_params}
use femu_on_virt.Ftl.Table.{ppa2pgidx, in_bounds, valid_ppa}

-- What the FTL relies on of the parameters. 128 channels are what the 7-bit field `ch` can name.
pub record IsLayout (spp : SsdParams) : Type 0 where
  pub some_chs : 0 < spp.nchs
  pub few_chs : spp.nchs ≤ 128
  pub secs : spp.secs_per_pg ≡ 8
  pub pgs : spp.pgs_per_blk ≡ 256
  pub blks : spp.blks_per_pl ≡ 256
  pub pls : spp.pls_per_lun ≡ 1
  pub luns : spp.luns_per_ch ≡ 8
  pub pl_size : spp.pgs_per_pl ≡ 65536
  pub lun_size : spp.pgs_per_lun ≡ 65536
  pub ch_size : spp.pgs_per_ch ≡ 524288
  pub size : spp.tt_pgs ≡ 524288 * spp.nchs
  pub line_size : spp.pgs_per_line ≡ 2048 * spp.nchs
  pub lines : spp.tt_lines ≡ 256

-- The address of a page of the device.
pub record IsPage (spp : SsdParams) (p : Ppa) : Type 0 where
  pub ch : p.ch < spp.nchs
  pub lun : p.lun < 8
  pub pl : p.pl ≡ 0
  pub blk : p.blk < 256
  pub pg : p.pg < 256

-- Two addresses of one page.
pub record SamePage (p q : Ppa) : Type 0 where
  pub ch : p.ch ≡ q.ch
  pub lun : p.lun ≡ q.lun
  pub pl : p.pl ≡ q.pl
  pub blk : p.blk ≡ q.blk
  pub pg : p.pg ≡ q.pg

-- For 1 to 128 channels ssd_init_params computes, without overflow, the sizes of blocks, LUNs,
-- channels, lines and the device: 256 pages to a block, 256 blocks to a LUN, 8 LUNs to a channel,
-- a line of 2048 pages and a capacity of 524288 pages for each channel, and 256 lines.
pub init_params-IsLayout : (nchs : ℕ) → 0 < nchs → nchs ≤ 128 → IsLayout (ssd_init_params nchs)
unfolding ssd_init_params
init_params-IsLayout nchs h k = omega arith

in_bounds_iff : (a max : ℕ) → max < 2 ^ 31 → (in_bounds a max ≡ true) ↔ (a < max)
unfolding in_bounds
in_bounds_iff a max h = ground arith

pub pgidx-SamePage :
    (spp : SsdParams) (p q : Ppa) → SamePage p q → ppa2pgidx spp p ≡ ppa2pgidx spp q
unfolding ppa2pgidx
pgidx-SamePage spp p q e = cc (e.ch, e.lun, e.pl, e.blk, e.pg)

module _ {spp : SsdParams} (l : IsLayout spp) where
  pub pgidx-linear :
      (p : Ppa)
      → IsPage spp p
      → ppa2pgidx spp p ≡ 524288 * p.ch + 65536 * p.lun + 256 * p.blk + p.pg
  unfolding ppa2pgidx
  pgidx-linear p h = rw (l.ch_size, l.lun_size, l.pl_size, l.pgs) (ground arith)

  pub pgidx-lt : (p : Ppa) → IsPage spp p → ppa2pgidx spp p < spp.tt_pgs
  pgidx-lt p h = omega (arith, pgidx-linear p h)

  -- On a device with the layout that ssd_init_params gives, two addresses of pages of the device
  -- with the same index in rmap are the same page.
  pub pgidx-injective :
      (p q : Ppa) → IsPage spp p → IsPage spp q → ppa2pgidx spp p ≡ ppa2pgidx spp q → SamePage p q
  pgidx-injective p q h k e = omega (arith, pgidx-linear p h, pgidx-linear q k)

  -- On a device with the layout that ssd_init_params gives, valid_ppa holds of an address if and
  -- only if its channel, LUN, plane, block and page are those of the device and its sector is
  -- below 8.
  pub valid_ppa_iff : (p : Ppa) → (valid_ppa spp p ≡ true) ↔ (IsPage spp p × (p.sec < 8))
  unfolding valid_ppa
  valid_ppa_iff p = ground (
    arith,
    in_bounds_iff p.ch spp.nchs,
    in_bounds_iff p.lun 8,
    in_bounds_iff p.pl 1,
    in_bounds_iff p.blk 256,
    in_bounds_iff p.pg 256,
    in_bounds_iff p.sec 8,
  )
