-- ===== src/Ftl/Gc.antt =====
-- Garbage collection: copy the valid pages of a victim line to the write pointer, erase its blocks
-- and free it. `struct ppa ppa` of do_gc starts as `zero_ppa`: the fields that the code leaves
-- unset (`sec`, `rsv`) are never read. Loops count the rounds left.
use femu_on_virt.Base.{
  ℕ, zero, suc, ◌/◌, ◌%◌, ◌^◌, Bool, true, false, not, ◌&&◌, Option, none, some, Run, ok, ◌>>=◌,
  ◌==◌, if◌then◌else◌, slt32, dec32,
}
use femu_on_virt.Ftl.Types.{
  Ppa, zero_ppa, NandCmd, Ssd, gc_io, nand_read, nand_write, nand_erase, pg_valid,
}
use femu_on_virt.Ftl.Victims.{Pqueue}
use femu_on_virt.Ftl.Table.{
  get_rmap_ent, set_maptbl_ent, set_rmap_ent, get_lun, set_lun, get_pg, set_line,
}
use femu_on_virt.Ftl.Nand.{ssd_advance_status}
use femu_on_virt.Ftl.Lines.{get_new_page, ssd_advance_write_pointer}
use femu_on_virt.Ftl.Pages.{mark_page_valid, mark_block_free, mark_line_free}

abbrev pub gc_cmd : ℕ → NandCmd
gc_cmd c = record { type = gc_io; cmd = c; stime = 0 }

module _ {Q : Type 0} where
  -- The command of type `c` that the collector issues when `enable_gc_delay` is set.
  unfoldable pub gc_delay : ℕ → Ppa → Ssd Q → Ssd Q
  gc_delay c p s = if s.sp.enable_gc_delay then (ssd_advance_status p (gc_cmd c) s).1 else s

  unfoldable pub gc_read_page : Ppa → Ssd Q → Ssd Q
  gc_read_page p s = gc_delay nand_read p s

  -- `lun->gc_endtime = lun->next_lun_avail_time`
  unfoldable pub set_gc_endtime : Ppa → Ssd Q → Ssd Q
  set_gc_endtime p s =
      let lun = get_lun s p in set_lun s p (record lun { gc_endtime = lun.next_lun_avail_time })

module _ {Q : Type 0} ⦃pq : Pqueue Q⦄ where
  -- The updates of gc_write_page up to the write pointer: the tables and the page's status.
  unfoldable pub move_mapping : Ppa → Ssd Q → Ssd Q
  move_mapping old_ppa s =
      let lpn = get_rmap_ent s old_ppa in
      let new_ppa = get_new_page s in
      mark_page_valid new_ppa (set_rmap_ent (set_maptbl_ent s lpn new_ppa) lpn new_ppa)

  unfoldable pub gc_write_page : Ppa → Ssd Q → Run (Ssd Q)
  gc_write_page old_ppa s =
      let new_ppa = get_new_page s in
      ssd_advance_write_pointer (move_mapping old_ppa s) >>= λ s2.
      ok (set_gc_endtime new_ppa (gc_delay nand_write new_ppa s2))

  unfoldable pub select_victim_line : Bool → Ssd Q → Option ℕ × Ssd Q
  select_victim_line force s = elim (pq.peek s.lm.victim_line_pq) [
    | none ↦ (none, s)
    | some victim_line ↦
        let (q, ls) = pq.pop s.lm.victim_line_pq s.lm.lines in
        let s1 = record s { lm = record (s.lm) { lines = ls; victim_line_pq = q } } in
        let s2 = set_line s1 victim_line (record (ls victim_line) { pos = 0 }) in
        if not force && slt32 (s.lm.lines victim_line).ipc (s.sp.pgs_per_line / 8)
        then (none, s)
        else (
          some victim_line,
          record s2 { lm = record (s2.lm) { victim_line_cnt = dec32 s2.lm.victim_line_cnt } },
        )
  ]

  -- `k` pages are left, from page `pg` on.
  unfoldable pub clean_pages : ℕ → ℕ → Ppa → Ssd Q → Run (Ssd Q)
  clean_pages zero pg p s = ok s
  clean_pages (suc k) pg p s =
      let here = record p { pg = pg % 2 ^ 16 } in
      (if (get_pg s here).status == pg_valid
        then gc_write_page here (gc_read_page here s)
        else ok s)
      >>= clean_pages k (suc pg) p

  unfoldable pub clean_one_block : Ppa → Ssd Q → Run (Ssd Q)
  clean_one_block p s = clean_pages s.sp.pgs_per_blk 0 p s

  -- The body of the loops over channels and LUNs.
  unfoldable pub gc_one_lun : Ppa → Ssd Q → Run (Ssd Q)
  gc_one_lun p s = clean_one_block p s >>= λ s1.
      ok (set_gc_endtime p (gc_delay nand_erase p (mark_block_free p s1)))

  unfoldable pub gc_luns : ℕ → ℕ → Ppa → Ssd Q → Run (Ssd Q)
  gc_luns zero lun p s = ok s
  gc_luns (suc k) lun p s =
      gc_one_lun (record p { lun = lun % 2 ^ 8; pl = 0 }) s >>= gc_luns k (suc lun) p

  unfoldable pub gc_chs : ℕ → ℕ → Ppa → Ssd Q → Run (Ssd Q)
  gc_chs zero ch p s = ok s
  gc_chs (suc k) ch p s =
      gc_luns s.sp.luns_per_ch 0 (record p { ch = ch % 2 ^ 7 }) s >>= gc_chs k (suc ch) p

  -- The part of do_gc behind the choice of a victim.
  unfoldable pub gc_line : ℕ → Ssd Q → Run (Ssd Q)
  gc_line victim_line s =
      let p = record zero_ppa { blk = (s.lm.lines victim_line).id % 2 ^ 16 } in
      gc_chs s.sp.nchs 0 p s >>= λ s1. ok (mark_line_free p s1)

  -- `false` is the result -1: there was no victim.
  unfoldable pub do_gc : Bool → Ssd Q → Run (Bool × Ssd Q)
  do_gc force s =
      let (victim_line, s1) = select_victim_line force s in
      elim victim_line [ none ↦ ok (false, s1) | some v ↦ gc_line v s1 >>= λ s2. ok (true, s2) ]
