-- ===== src/Ftl/Runs.antt =====
-- Runs of whole requests, of single commands and of the address arithmetic, on the same device.
use femu_on_virt.Base.{ℕ, ◌↔◌, ◌+◌, ◌<◌, ◌≡◌, refl, ap, true, false, ok, arith}
use femu_on_virt.Ftl.Types.{Ppa, zero_ppa, SsdParams, Ssd}
use femu_on_virt.Ftl.Params.{ssd_init_params, should_gc_high}
use femu_on_virt.Ftl.Init.{
  init_nchs, init_lines, ssd_init_ch, ssd_init_lines, ssd_init_rmap, ssd_init_maptbl,
}
use femu_on_virt.Ftl.Io.{RwCommand, ssd_read, ssd_write, start_lpn, end_lpn}
use femu_on_virt.Ftl.Table.{ppa2pgidx, valid_ppa, get_lun}
use femu_on_virt.Ftl.Request.{page_count, ssd_write_left}
use femu_on_virt.Ftl.Read.{PagesRead, ssd_read-PagesRead}
use femu_on_virt.Ftl.Latency.{IsIdleAt}
use femu_on_virt.Ftl.Geometry.{
  IsLayout, IsPage, SamePage, init_params-IsLayout, pgidx-injective, valid_ppa_iff,
}
use femu_on_virt.Ftl.Sample.{Entries, sample, sample-IsPqueue}
use femu_on_virt.Ftl.Mapping.{IsConsistent}
use femu_on_virt.Ftl.Write.{Remapped, in_range}
use femu_on_virt.Ftl.Space.{pages_left}
use femu_on_virt.Ftl.Examples.{device, device-IsConsistent, device-IsFresh, device_pgs, device_left}

-- Sectors 80 to 103: the logical pages 10 to 12.
abbrev request : RwCommand
request = record { slba = 80; length = 23 }

device_secs : device.sp.secs_per_pg ≡ 8
unfolding ssd_init_params
device_secs = ap (λ (x : SsdParams). x.secs_per_pg) device-IsFresh.sp

device_lat : device.sp.pg_rd_lat ≡ 10000
unfolding ssd_init_params
device_lat = ap (λ (x : SsdParams). x.pg_rd_lat) device-IsFresh.sp

request_first : start_lpn device.sp request ≡ 10
unfolding start_lpn
request_first = rw device_secs refl

request_last : end_lpn device.sp request ≡ 12
unfolding end_lpn
request_last = rw device_secs refl

device_enough : should_gc_high device ≡ false
unfolding should_gc_high ssd_init_params ssd_init_lines ssd_init_rmap ssd_init_maptbl init_nchs
    init_lines
device_enough = refl

ssd_write_left_example :
    (lat : ℕ) × (s' : Ssd Entries) × (ssd_write 1 request 500 device ≡ ok (lat, s'))
    × (pages_left s' + page_count device request ≡ pages_left device)
    × IsConsistent s'
    × Remapped (in_range (start_lpn device.sp request) (page_count device request)) device s'
ssd_write_left_example =
    ssd_write_left sample-IsPqueue 0 request 500 device device-IsConsistent (omega arith)
      (omega (arith, request_last, device_pgs)) device_enough
      (omega (arith, request_first, request_last, device_left))

idle : IsIdleAt 600 device
unfolding ssd_init_lines ssd_init_rmap ssd_init_maptbl ssd_init_ch init_nchs ssd_init_params get_lun
idle q = ground arith

ssd_read-PagesRead_example :
    PagesRead
      (page_count device request)
      500
      (start_lpn device.sp request)
      0
      600
      device
      (ssd_read request 500 device)
ssd_read-PagesRead_example =
    ssd_read-PagesRead request 500 600 device device-IsConsistent (omega arith)
      (omega (arith, request_last, device_pgs)) (omega arith) (omega arith) idle
      (omega (arith, device_lat)) (rw (request_first, request_last, device_lat) (omega arith))

-- The page 3 of block 2 on LUN 1 of channel 0.
abbrev page : Ppa
page = record zero_ppa { lun = 1; blk = 2; pg = 3 }

two_chs : IsLayout (ssd_init_params 2)
two_chs = init_params-IsLayout 2 (omega arith) (omega arith)

page-IsPage : IsPage (ssd_init_params 2) page
unfolding ssd_init_params
page-IsPage = record {
  ch = omega arith;
  lun = omega arith;
  pl = refl;
  blk = omega arith;
  pg = omega arith;
}

pgidx-injective_example : SamePage page (record page { sec = 5 })
unfolding ssd_init_params ppa2pgidx
pgidx-injective_example =
    pgidx-injective two_chs page (record page { sec = 5 }) page-IsPage
      (record {
        ch = page-IsPage.ch;
        lun = page-IsPage.lun;
        pl = page-IsPage.pl;
        blk = page-IsPage.blk;
        pg = page-IsPage.pg;
      })
      refl

valid_ppa_iff_example :
    (valid_ppa (ssd_init_params 2) page ≡ true) ↔ (IsPage (ssd_init_params 2) page × (page.sec < 8))
valid_ppa_iff_example = valid_ppa_iff two_chs page
