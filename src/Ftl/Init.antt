-- ===== src/Ftl/Init.antt =====
-- ssd_init and what it calls. `init_array n f a` is the array `a` after `a[i] = f(i)` for each
-- `i < n`; `a` stands for what the allocation held. A failed allocation is left out, as in the code.
use femu_on_virt.Base.{
  ℕ, zero, suc, ◌+◌, ◌*◌, ◌/◌, ◌^◌, false, [], ◌∷◌, ◌++◌, Run, ok, fault, ◌>>=◌, ltb, if◌then◌else◌,
  update, inc32, dec32, w32, w64, sext64,
}
use femu_on_virt.Ftl.Types.{
  NandPage, NandBlock, NandPlane, NandLun, SsdChannel, SsdParams, LineMgmt, Ssd, unmapped_ppa,
  invalid_lpn, sec_free, pg_free,
}
use femu_on_virt.Ftl.Victims.{Pqueue}
use femu_on_virt.Ftl.Params.{ssd_init_params}

abbrev pub init_array : {A : Type 0} → ℕ → (ℕ → A) → (ℕ → A) → ℕ → A
init_array n f a i = if ltb i n then f i else a i

unfoldable pub ssd_init_nand_page : SsdParams → NandPage → NandPage
ssd_init_nand_page spp pg = record {
  sec = init_array spp.secs_per_pg (λ _. sec_free) pg.sec;
  nsecs = spp.secs_per_pg;
  status = pg_free;
}

unfoldable pub ssd_init_nand_blk : SsdParams → NandBlock → NandBlock
unfolding ssd_init_nand_page
ssd_init_nand_blk spp blk = record {
  pg = init_array spp.pgs_per_blk (λ i. ssd_init_nand_page spp (blk.pg i)) blk.pg;
  npgs = spp.pgs_per_blk;
  ipc = 0;
  vpc = 0;
  erase_cnt = 0;
  wp = 0;
}

unfoldable pub ssd_init_nand_plane : SsdParams → NandPlane → NandPlane
unfolding ssd_init_nand_blk
ssd_init_nand_plane spp pl = record {
  blk = init_array spp.blks_per_pl (λ i. ssd_init_nand_blk spp (pl.blk i)) pl.blk;
  nblks = spp.blks_per_pl;
}

-- `gc_endtime` is left as the allocation held it.
unfoldable pub ssd_init_nand_lun : SsdParams → NandLun → NandLun
unfolding ssd_init_nand_plane
ssd_init_nand_lun spp lun = record lun {
  pl = init_array spp.pls_per_lun (λ i. ssd_init_nand_plane spp (lun.pl i)) lun.pl;
  npls = spp.pls_per_lun;
  next_lun_avail_time = 0;
  busy = false;
}

unfoldable pub ssd_init_ch : SsdParams → SsdChannel → SsdChannel
unfolding ssd_init_nand_lun
ssd_init_ch spp ch = record ch {
  lun = init_array spp.luns_per_ch (λ i. ssd_init_nand_lun spp (ch.lun i)) ch.lun;
  nluns = spp.luns_per_ch;
  next_ch_avail_time = 0;
  busy = false;
}

-- `(int)(memmap_size >> 30) >> 1`
unfoldable pub init_nchs : ℕ → ℕ
init_nchs memmap_size =
    let size_in_gb = w32 (memmap_size / 2 ^ 30) in
    if ltb size_in_gb (2 ^ 31) then size_in_gb / 2 else size_in_gb / 2 + 2 ^ 31

-- The rounds of a loop with `int i < n`: none for a negative `n`.
abbrev pub int_rounds : ℕ → ℕ
int_rounds n = if ltb n (2 ^ 31) then n else 0

module _ {Q : Type 0} where
  unfoldable pub ssd_init_maptbl : Ssd Q → Ssd Q
  ssd_init_maptbl s = record s {
    maptbl = init_array (int_rounds s.sp.tt_pgs) (λ _. unmapped_ppa) s.maptbl;
  }

  unfoldable pub ssd_init_rmap : Ssd Q → Ssd Q
  ssd_init_rmap s = record s {
    rmap = init_array (int_rounds s.sp.tt_pgs) (λ _. invalid_lpn) s.rmap;
  }

  -- The loop over the lines: `k` rounds are left, from line `i` on.
  unfoldable pub init_lines : ℕ → ℕ → LineMgmt Q → LineMgmt Q
  init_lines zero i lm = lm
  init_lines (suc k) i lm = init_lines k (suc i) (record lm {
    lines = update lm.lines i (record { id = i; ipc = 0; vpc = 0; pos = 0 });
    free_line_list = lm.free_line_list ++ i ∷ [];
    free_line_cnt = inc32 lm.free_line_cnt;
  })

  -- QTAILQ_REMOVE of a NULL line is a fault.
  unfoldable pub ssd_init_write_pointer : Ssd Q → Run (Ssd Q)
  ssd_init_write_pointer s = elim (s.lm.free_line_list) [
    | [] ↦ fault
    | curline ∷ rest ↦ ok (record s {
      wp = record { curline = curline; ch = 0; lun = 0; pg = 0; blk = 0; pl = 0 };
      lm = record (s.lm) { free_line_list = rest; free_line_cnt = dec32 s.lm.free_line_cnt };
    })
  ]

module _ {Q : Type 0} ⦃pq : Pqueue Q⦄ where
  unfoldable pub ssd_init_lines : Ssd Q → Ssd Q
  ssd_init_lines s =
      let n = s.sp.blks_per_pl in
      let lm = init_lines n 0 (record (s.lm) {
        tt_lines = n;
        free_line_list = [];
        victim_line_pq = pq.init (sext64 s.sp.tt_lines);
        full_line_list = [];
        free_line_cnt = 0;
      }) in
      record s { lm = record lm { victim_line_cnt = 0; full_line_cnt = 0 } }

  -- Returns the logical space and the device.
  unfoldable pub ssd_init : ℕ → ℕ → Ssd Q → Run (ℕ × Ssd Q)
  ssd_init cpu_nr_dispatcher memmap_size s =
      let nchs = init_nchs memmap_size in
      let spp = ssd_init_params nchs in
      let logical_space = w64 (memmap_size * 100) / sext64 spp.pba_pcent in
      let s1 = record s {
        cpu_nr_dispatcher = cpu_nr_dispatcher;
        sp = spp;
        ch = init_array nchs (λ i. ssd_init_ch spp (s.ch i)) s.ch;
      } in
      ssd_init_write_pointer (ssd_init_lines (ssd_init_rmap (ssd_init_maptbl s1))) >>= λ s2.
      ok (logical_space, s2)
