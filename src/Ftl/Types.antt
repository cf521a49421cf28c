-- ===== src/Ftl/Types.antt =====
-- The structures of ftl.h. An array is a function of the index, a pointer to a line is its index
-- in `lm.lines`, and a tail queue of lines is the list of these indices. An `int` is its 32-bit
-- pattern. `double` thresholds are kept in hundredths.
use femu_on_virt.Base.{ℕ, ◌+◌, ◌-◌, ◌*◌, ◌^◌, Bool, List, ones64}

-- struct ppa: the bit fields, lowest bits first.
pub record Ppa : Type 0 where
  pub blk : ℕ
  pub pg : ℕ
  pub sec : ℕ
  pub pl : ℕ
  pub lun : ℕ
  pub ch : ℕ
  pub rsv : ℕ

-- The other member of the union, the 64-bit word that the fields make up.
unfoldable pub ppa_word : Ppa → ℕ
ppa_word p =
    p.blk
    + 2 ^ 16 * p.pg
    + 2 ^ 32 * p.sec
    + 2 ^ 40 * p.pl
    + 2 ^ 48 * p.lun
    + 2 ^ 56 * p.ch
    + 2 ^ 63 * p.rsv

-- `ppa.ppa = UNMAPPED_PPA`, all bits set.
abbrev pub unmapped_ppa : Ppa
unmapped_ppa = record {
  blk = 2 ^ 16 - 1;
  pg = 2 ^ 16 - 1;
  sec = 2 ^ 8 - 1;
  pl = 2 ^ 8 - 1;
  lun = 2 ^ 8 - 1;
  ch = 2 ^ 7 - 1;
  rsv = 1;
}

-- `ppa.ppa = 0`
abbrev pub zero_ppa : Ppa
zero_ppa = record { blk = 0; pg = 0; sec = 0; pl = 0; lun = 0; ch = 0; rsv = 0 }

abbrev pub invalid_lpn : ℕ
invalid_lpn = ones64

abbrev pub nand_read : ℕ
nand_read = 0

abbrev pub nand_write : ℕ
nand_write = 1

abbrev pub nand_erase : ℕ
nand_erase = 2

abbrev pub nand_read_latency : ℕ
nand_read_latency = 10000

abbrev pub nand_prog_latency : ℕ
nand_prog_latency = 10000

abbrev pub nand_erase_latency : ℕ
nand_erase_latency = 2000000

abbrev pub user_io : ℕ
user_io = 0

abbrev pub gc_io : ℕ
gc_io = 1

abbrev pub sec_free : ℕ
sec_free = 0

abbrev pub pg_free : ℕ
pg_free = 0

abbrev pub pg_invalid : ℕ
pg_invalid = 1

abbrev pub pg_valid : ℕ
pg_valid = 2

pub record NandPage : Type 0 where
  pub sec : ℕ → ℕ
  pub nsecs : ℕ
  pub status : ℕ

pub record NandBlock : Type 0 where
  pub pg : ℕ → NandPage
  pub npgs : ℕ
  pub ipc : ℕ
  pub vpc : ℕ
  pub erase_cnt : ℕ
  pub wp : ℕ

pub record NandPlane : Type 0 where
  pub blk : ℕ → NandBlock
  pub nblks : ℕ

pub record NandLun : Type 0 where
  pub pl : ℕ → NandPlane
  pub npls : ℕ
  pub next_lun_avail_time : ℕ
  pub busy : Bool
  pub gc_endtime : ℕ

pub record SsdChannel : Type 0 where
  pub lun : ℕ → NandLun
  pub nluns : ℕ
  pub next_ch_avail_time : ℕ
  pub busy : Bool
  pub gc_endtime : ℕ

pub record SsdParams : Type 0 where
  pub secsz : ℕ
  pub secs_per_pg : ℕ
  pub pgs_per_blk : ℕ
  pub blks_per_pl : ℕ
  pub pls_per_lun : ℕ
  pub luns_per_ch : ℕ
  pub nchs : ℕ
  pub pg_rd_lat : ℕ
  pub pg_wr_lat : ℕ
  pub blk_er_lat : ℕ
  pub ch_xfer_lat : ℕ
  pub gc_thres_pcent : ℕ
  pub gc_thres_lines : ℕ
  pub gc_thres_pcent_high : ℕ
  pub gc_thres_lines_high : ℕ
  pub enable_gc_delay : Bool
  pub op_area_pcent : ℕ
  pub secs_per_blk : ℕ
  pub secs_per_pl : ℕ
  pub secs_per_lun : ℕ
  pub secs_per_ch : ℕ
  pub tt_secs : ℕ
  pub pgs_per_pl : ℕ
  pub pgs_per_lun : ℕ
  pub pgs_per_ch : ℕ
  pub tt_pgs : ℕ
  pub blks_per_lun : ℕ
  pub blks_per_ch : ℕ
  pub tt_blks : ℕ
  pub secs_per_line : ℕ
  pub pgs_per_line : ℕ
  pub blks_per_line : ℕ
  pub tt_lines : ℕ
  pub pls_per_ch : ℕ
  pub tt_pls : ℕ
  pub tt_luns : ℕ
  pub pba_pcent : ℕ

pub record Line : Type 0 where
  pub id : ℕ
  pub ipc : ℕ
  pub vpc : ℕ
  pub pos : ℕ

pub record WritePointer : Type 0 where
  pub curline : ℕ
  pub ch : ℕ
  pub lun : ℕ
  pub pg : ℕ
  pub blk : ℕ
  pub pl : ℕ

-- `Q` is the type of the priority queue of victim lines.
pub record LineMgmt (Q : Type 0) : Type 0 where
  pub lines : ℕ → Line
  pub free_line_list : List ℕ
  pub victim_line_pq : Q
  pub full_line_list : List ℕ
  pub tt_lines : ℕ
  pub free_line_cnt : ℕ
  pub victim_line_cnt : ℕ
  pub full_line_cnt : ℕ

pub record NandCmd : Type 0 where
  pub type : ℕ
  pub cmd : ℕ
  pub stime : ℕ

-- `ioclock n` is what the n-th of the coming readings of the dispatcher's clock will give.
pub record Ssd (Q : Type 0) : Type 0 where
  pub sp : SsdParams
  pub ch : ℕ → SsdChannel
  pub maptbl : ℕ → Ppa
  pub rmap : ℕ → ℕ
  pub wp : WritePointer
  pub lm : LineMgmt Q
  pub cpu_nr_dispatcher : ℕ
  pub ioclock : ℕ → ℕ
