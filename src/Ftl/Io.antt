-- ===== src/Ftl/Io.antt =====
-- ssd_read and ssd_write. A command is the part that they read, `rw.slba` and `rw.length`.
use femu_on_virt.Base.{
  ℕ, zero, suc, ◌+◌, ◌-◌, ◌/◌, true, false, not, ◌||◌, Run, ok, out_of_fuel, ◌>>=◌, ltb, leb,
  if◌then◌else◌, add64, sub64, sext64,
}
use femu_on_virt.Ftl.Types.{NandCmd, SsdParams, Ssd, user_io, nand_read, nand_write, invalid_lpn}
use femu_on_virt.Ftl.Victims.{Pqueue}
use femu_on_virt.Ftl.Params.{should_gc_high}
use femu_on_virt.Ftl.Table.{valid_ppa, mapped_ppa, get_maptbl_ent, set_maptbl_ent, set_rmap_ent}
use femu_on_virt.Ftl.Nand.{ssd_advance_status}
use femu_on_virt.Ftl.Lines.{get_new_page, ssd_advance_write_pointer}
use femu_on_virt.Ftl.Pages.{mark_page_valid, mark_page_invalid}
use femu_on_virt.Ftl.Gc.{do_gc}

pub record RwCommand : Type 0 where
  pub slba : ℕ
  pub length : ℕ

abbrev pub user_cmd : ℕ → ℕ → NandCmd
user_cmd c stime = record { type = user_io; cmd = c; stime = stime }

unfoldable pub start_lpn : SsdParams → RwCommand → ℕ
start_lpn spp cmd = cmd.slba / sext64 spp.secs_per_pg

unfoldable pub end_lpn : SsdParams → RwCommand → ℕ
end_lpn spp cmd = sub64 (add64 cmd.slba (cmd.length + 1)) 1 / sext64 spp.secs_per_pg

-- `(lat > maxlat) ? lat : maxlat`
unfoldable pub max_lat : ℕ → ℕ → ℕ
max_lat lat maxlat = if ltb maxlat lat then lat else maxlat

module _ {Q : Type 0} where
  -- One page of a read.
  unfoldable pub read_page : ℕ → ℕ → ℕ × Ssd Q → ℕ × Ssd Q
  read_page stime lpn (maxlat, s) =
      let p = get_maptbl_ent s lpn in
      let (sublat, s') = ssd_advance_status p (user_cmd nand_read stime) s in
      if not (mapped_ppa p) || not (valid_ppa s.sp p)
      then (maxlat, s)
      else (max_lat sublat maxlat, s')

  -- `k` pages are left, from page `lpn` on.
  unfoldable pub read_pages : ℕ → ℕ → ℕ → ℕ × Ssd Q → ℕ × Ssd Q
  read_pages zero lpn stime r = r
  read_pages (suc k) lpn stime r = read_pages k (suc lpn) stime (read_page stime lpn r)

  unfoldable pub ssd_read : RwCommand → ℕ → Ssd Q → ℕ × Ssd Q
  ssd_read cmd nsecs_start s =
      let first = start_lpn s.sp cmd in
      let last = end_lpn s.sp cmd in
      if leb (sext64 s.sp.tt_pgs) last
      then (0, s)
      else read_pages (last + 1 - first) first nsecs_start (0, s)

module _ {Q : Type 0} ⦃pq : Pqueue Q⦄ where
  -- "update old page information first"
  unfoldable pub drop_old_page : ℕ → Ssd Q → Ssd Q
  drop_old_page lpn s =
      let p = get_maptbl_ent s lpn in
      if mapped_ppa p then set_rmap_ent (mark_page_invalid p s) invalid_lpn p else s

  -- "new write": the tables and the page's status.
  unfoldable pub map_new_page : ℕ → Ssd Q → Ssd Q
  map_new_page lpn s =
      let p = get_new_page s in mark_page_valid p (set_rmap_ent (set_maptbl_ent s lpn p) lpn p)

  -- One page of a write, with the greatest latency so far.
  unfoldable pub write_page : ℕ → ℕ → ℕ × Ssd Q → Run (ℕ × Ssd Q)
  write_page stime lpn (maxlat, s) =
      let s1 = drop_old_page lpn s in
      let p = get_new_page s1 in
      ssd_advance_write_pointer (map_new_page lpn s1) >>= λ s2.
      let (curlat, s3) = ssd_advance_status p (user_cmd nand_write stime) s2 in
      ok (max_lat curlat maxlat, s3)

  unfoldable pub write_pages : ℕ → ℕ → ℕ → ℕ × Ssd Q → Run (ℕ × Ssd Q)
  write_pages zero lpn stime r = ok r
  write_pages (suc k) lpn stime r = write_page stime lpn r >>= write_pages k (suc lpn) stime

  -- `while (should_gc_high(&ssd))`, with fuel.
  unfoldable pub gc_loop : ℕ → Ssd Q → Run (Ssd Q)
  gc_loop zero s = out_of_fuel
  gc_loop (suc fuel) s = elim (should_gc_high s) [
    | false ↦ ok s
    | true ↦ do_gc true s >>= λ r. elim (r.0) [ false ↦ ok r.1 | true ↦ gc_loop fuel r.1 ]
  ]

  unfoldable pub ssd_write : ℕ → RwCommand → ℕ → Ssd Q → Run (ℕ × Ssd Q)
  ssd_write fuel cmd nsecs_start s =
      let first = start_lpn s.sp cmd in
      let last = end_lpn s.sp cmd in
      if leb (sext64 s.sp.tt_pgs) last
      then ok (0, s)
      else gc_loop fuel s >>= λ s1. write_pages (last + 1 - first) first nsecs_start (0, s1)
