-- ===== src/Ftl/Request.antt =====
-- ssd_write as a whole, while the free lines are above the threshold of garbage collection.
use femu_on_virt.Base.{ℕ, suc, ◌+◌, ◌-◌, ◌≤◌, ◌<◌, ◌^◌, ◌≡◌, refl, false, ok, arith}
use femu_on_virt.Ftl.Types.{Ssd}
use femu_on_virt.Ftl.Victims.{Pqueue, IsPqueue}
use femu_on_virt.Ftl.Params.{should_gc_high}
use femu_on_virt.Ftl.Io.{RwCommand, start_lpn, end_lpn, gc_loop, ssd_write}
use femu_on_virt.Ftl.Geometry.{IsLayout}
use femu_on_virt.Ftl.Mapping.{IsConsistent}
use femu_on_virt.Ftl.Write.{Remapped, in_range}
use femu_on_virt.Ftl.Space.{pages_left, write_pages_left}
use femu_on_virt.Ftl.Read.{lpns_rise, in_device, out_of_device}

-- How many logical pages a request names.
abbrev pub page_count : {Q : Type 0} → Ssd Q → RwCommand → ℕ
page_count s cmd = end_lpn s.sp cmd + 1 - start_lpn s.sp cmd

module _ {Q : Type 0} ⦃pq : Pqueue Q⦄ (laws : IsPqueue pq) (fuel : ℕ) (cmd : RwCommand) (start : ℕ)
    (s : Ssd Q) where
  not_collecting : should_gc_high s ≡ false → gc_loop (suc fuel) s ≡ ok s
  unfolding gc_loop
  not_collecting enough = ground arith

  -- For a consistent device, a request whose last sector is below 2^64 and whose last logical page
  -- is within the device, with the free lines above the threshold of garbage collection and more
  -- pages left than the request names, ssd_write succeeds with any positive fuel. It takes one
  -- page for each logical page of the request, keeps the tables consistent, maps exactly the
  -- request's logical pages in addition, and leaves the other entries of maptbl as they were.
  pub ssd_write_left :
      IsConsistent s
      → cmd.slba + (cmd.length + 1) < 2 ^ 64
      → end_lpn s.sp cmd < s.sp.tt_pgs
      → should_gc_high s ≡ false
      → page_count s cmd < pages_left s
      → (lat : ℕ) × (s' : Ssd Q) × (ssd_write (suc fuel) cmd start s ≡ ok (lat, s'))
        × (pages_left s' + page_count s cmd ≡ pages_left s)
        × IsConsistent s'
        × Remapped (in_range (start_lpn s.sp cmd) (page_count s cmd)) s s'
  unfolding ssd_write
  ssd_write_left k fit i enough m =
      let up = lpns_rise s.sp cmd k.room.layout.secs fit in
      let inside = in_device s.sp (end_lpn s.sp cmd) k.room.layout i in
      let (lat, t, e, left, c, r) =
        write_pages_left laws (page_count s cmd) (start_lpn s.sp cmd) start 0 s k (omega arith) m in
      (lat, t, rw (inside, not_collecting enough) e, left, c, r)

  -- On a device with the layout of ssd_init_params, ssd_write of a request whose last logical page
  -- is not within the device returns 0, whatever the fuel, and changes nothing.
  pub ssd_write-outside :
      IsLayout s.sp → s.sp.tt_pgs ≤ end_lpn s.sp cmd → ssd_write fuel cmd start s ≡ ok (0, s)
  unfolding ssd_write
  ssd_write-outside l i = rw (out_of_device s.sp (end_lpn s.sp cmd) l i) refl
