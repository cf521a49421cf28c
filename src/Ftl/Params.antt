-- ===== src/Ftl/Params.antt =====
-- ssd_init_params, and the thresholds of the garbage collector.
use femu_on_virt.Base.{ℕ, ◌+◌, ◌-◌, ◌*◌, ◌/◌, Bool, true, not, mul32, slt32, ◌==◌, if◌then◌else◌}
use femu_on_virt.Ftl.Types.{
  SsdParams, Ssd, nand_read, nand_write, nand_erase, nand_read_latency, nand_prog_latency,
  nand_erase_latency,
}

-- `(int)((1 - pcent) * n)`, with `pcent` in hundredths. For the two constants of the code the
-- `double` product is exact or lies just above the real one, so truncation gives the same.
abbrev pub thres_lines : ℕ → ℕ → ℕ
thres_lines pcent n = (100 - pcent) * n / 100

unfoldable pub ssd_init_params : ℕ → SsdParams
ssd_init_params nchs =
    let secsz : ℕ = 512 in
    let secs_per_pg : ℕ = 8 in
    let pgs_per_blk : ℕ = 256 in
    let blks_per_pl : ℕ = 256 in
    let pls_per_lun : ℕ = 1 in
    let luns_per_ch : ℕ = 8 in
    let secs_per_blk = mul32 secs_per_pg pgs_per_blk in
    let secs_per_pl = mul32 secs_per_blk blks_per_pl in
    let secs_per_lun = mul32 secs_per_pl pls_per_lun in
    let secs_per_ch = mul32 secs_per_lun luns_per_ch in
    let tt_secs = mul32 secs_per_ch nchs in
    let pgs_per_pl = mul32 pgs_per_blk blks_per_pl in
    let pgs_per_lun = mul32 pgs_per_pl pls_per_lun in
    let pgs_per_ch = mul32 pgs_per_lun luns_per_ch in
    let tt_pgs = mul32 pgs_per_ch nchs in
    let blks_per_lun = mul32 blks_per_pl pls_per_lun in
    let blks_per_ch = mul32 blks_per_lun luns_per_ch in
    let tt_blks = mul32 blks_per_ch nchs in
    let pls_per_ch = mul32 pls_per_lun luns_per_ch in
    let tt_pls = mul32 pls_per_ch nchs in
    let tt_luns = mul32 luns_per_ch nchs in
    let blks_per_line = tt_luns in
    let pgs_per_line = mul32 blks_per_line pgs_per_blk in
    let secs_per_line = mul32 pgs_per_line secs_per_pg in
    let tt_lines = blks_per_lun in
    let gc_thres_pcent : ℕ = 75 in
    let gc_thres_pcent_high : ℕ = 95 in
    let op_area_pcent : ℕ = 0 in
    record {
      secsz = secsz;
      secs_per_pg = secs_per_pg;
      pgs_per_blk = pgs_per_blk;
      blks_per_pl = blks_per_pl;
      pls_per_lun = pls_per_lun;
      luns_per_ch = luns_per_ch;
      nchs = nchs;
      pg_rd_lat = nand_read_latency;
      pg_wr_lat = nand_prog_latency;
      blk_er_lat = nand_erase_latency;
      ch_xfer_lat = 0;
      gc_thres_pcent = gc_thres_pcent;
      gc_thres_lines = thres_lines gc_thres_pcent tt_lines;
      gc_thres_pcent_high = gc_thres_pcent_high;
      gc_thres_lines_high = thres_lines gc_thres_pcent_high tt_lines;
      enable_gc_delay = true;
      op_area_pcent = op_area_pcent;
      secs_per_blk = secs_per_blk;
      secs_per_pl = secs_per_pl;
      secs_per_lun = secs_per_lun;
      secs_per_ch = secs_per_ch;
      tt_secs = tt_secs;
      pgs_per_pl = pgs_per_pl;
      pgs_per_lun = pgs_per_lun;
      pgs_per_ch = pgs_per_ch;
      tt_pgs = tt_pgs;
      blks_per_lun = blks_per_lun;
      blks_per_ch = blks_per_ch;
      tt_blks = tt_blks;
      secs_per_line = secs_per_line;
      pgs_per_line = pgs_per_line;
      blks_per_line = blks_per_line;
      tt_lines = tt_lines;
      pls_per_ch = pls_per_ch;
      tt_pls = tt_pls;
      tt_luns = tt_luns;
      pba_pcent = 100 + op_area_pcent;
    }

unfoldable pub adjust_ftl_latency : ℕ → ℕ → SsdParams → SsdParams
adjust_ftl_latency target lat spp =
    if target == nand_read
    then record spp { pg_rd_lat = lat }
    else if target == nand_write
    then record spp { pg_wr_lat = lat }
    else if target == nand_erase
    then record spp { blk_er_lat = lat }
    else spp

-- `a <= b` on `int`
module _ {Q : Type 0} (s : Ssd Q) where
  unfoldable pub should_gc : Bool
  should_gc = not (slt32 s.sp.gc_thres_lines s.lm.free_line_cnt)

  unfoldable pub should_gc_high : Bool
  should_gc_high = not (slt32 s.sp.gc_thres_lines_high s.lm.free_line_cnt)
