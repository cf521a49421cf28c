-- ===== src/Ftl/Examples.antt =====
-- Concrete runs of the flash translation layer, on a device of one channel and the sample queue.
use femu_on_virt.Base.{
  ℕ, ◌+◌, ◌*◌, ◌/◌, ◌≤◌, ◌<◌, ◌^◌, ◌≡◌, refl, sym, ◌∙◌, ap, subst, Bool, true, Option, none, some,
  [], ◌∷◌, ok, fault, arith, w64, within-range, range-Distinct, range,
}
use femu_on_virt.Ftl.Types.{zero_ppa, NandPage, NandBlock, NandLun, SsdParams, WritePointer, Ssd}
use femu_on_virt.Ftl.Params.{ssd_init_params}
use femu_on_virt.Ftl.Init.{init_nchs, ssd_init_lines, ssd_init_rmap, ssd_init_maptbl, ssd_init}
use femu_on_virt.Ftl.Io.{write_pages, write_page}
use femu_on_virt.Ftl.Gc.{do_gc}
use femu_on_virt.Ftl.Table.{get_pg, get_blk}
use femu_on_virt.Ftl.Reclaim.{Remains, IsReclaimed}
use femu_on_virt.Ftl.Collector.{do_gc_left}
use femu_on_virt.Ftl.Sample.{Entries, sample, sample-peek, sample-IsPqueue}
use femu_on_virt.Ftl.Pointer.{IsOpen}
use femu_on_virt.Ftl.Mapping.{IsConsistent, IsApart, SameMap, SameMap-IsMapped}
use femu_on_virt.Ftl.Write.{Remapped, in_range}
use femu_on_virt.Ftl.Fresh.{
  IsFresh, opened, opened-IsFresh, fresh-IsConsistent, ssd_init-IsConsistent,
}
use femu_on_virt.Ftl.Space.{pages_left, write_pages_left, write_page_full}

abbrev blank_page : NandPage
blank_page = record { sec = λ _. 7; nsecs = 7; status = 7 }

abbrev blank_blk : NandBlock
blank_blk = record { pg = λ _. blank_page; npgs = 7; ipc = 7; vpc = 7; erase_cnt = 7; wp = 7 }

abbrev blank_lun : NandLun
blank_lun = record {
  pl = λ _. record { blk = λ _. blank_blk; nblks = 7 };
  npls = 7;
  next_lun_avail_time = 7;
  busy = true;
  gc_endtime = 7;
}

-- Memory as an allocation may hold it.
abbrev pub blank : Ssd Entries
unfolding ssd_init_params
blank = record {
  sp = ssd_init_params 7;
  ch = λ _. record {
    lun = λ _. blank_lun;
    nluns = 7;
    next_ch_avail_time = 7;
    busy = true;
    gc_endtime = 7;
  };
  maptbl = λ _. zero_ppa;
  rmap = λ _. 7;
  wp = record { curline = 7; ch = 7; lun = 7; pg = 7; blk = 7; pl = 7 };
  lm = record {
    lines = λ _. record { id = 7; ipc = 7; vpc = 7; pos = 7 };
    free_line_list = 7 ∷ [];
    victim_line_pq = [];
    full_line_list = 7 ∷ [];
    tt_lines = 7;
    free_line_cnt = 7;
    victim_line_cnt = 7;
    full_line_cnt = 7;
  };
  cpu_nr_dispatcher = 7;
  ioclock = λ n. 1000 + n;
}

one_ch : init_nchs (2 ^ 31) ≡ 1
unfolding init_nchs
one_ch = omega arith

pub one : 0 < init_nchs (2 ^ 31)
one = omega (arith, one_ch)

pub few : init_nchs (2 ^ 31) ≤ 128
few = omega (arith, one_ch)

-- The device that ssd_init makes of it for 2 GB.
abbrev pub device : Ssd Entries
device = opened 3 (2 ^ 31) blank one few

pub device-IsConsistent : IsConsistent device
device-IsConsistent = fresh-IsConsistent _ device (opened-IsFresh 3 (2 ^ 31) blank one few) one few

ssd_init-IsConsistent_example :
    (s' : Ssd Entries) × (ssd_init 3 (2 ^ 31) blank ≡ ok (w64 (2 ^ 31 * 100) / 100, s'))
    × IsFresh (init_nchs (2 ^ 31)) s'
    × IsConsistent s'
ssd_init-IsConsistent_example = ssd_init-IsConsistent 3 (2 ^ 31) blank one few

pub device-IsFresh : IsFresh 1 device
device-IsFresh = subst (λ n. IsFresh n device) one_ch (opened-IsFresh 3 (2 ^ 31) blank one few)

pub device_pgs : device.sp.tt_pgs ≡ 524288
unfolding ssd_init_params
device_pgs = ap (λ (x : SsdParams). x.tt_pgs) device-IsFresh.sp

pub device_left : pages_left device ≡ 524288
unfolding ssd_init_params ssd_init_lines ssd_init_rmap ssd_init_maptbl init_nchs
device_left = refl

write_pages_left_example :
    (lat : ℕ) × (s' : Ssd Entries) × (write_pages 3 10 500 (0, device) ≡ ok (lat, s'))
    × (pages_left s' + 3 ≡ pages_left device)
    × IsConsistent s'
    × Remapped (in_range 10 3) device s'
write_pages_left_example =
    write_pages_left sample-IsPqueue 3 10 500 0 device device-IsConsistent
      (omega (arith, device_pgs)) (omega (arith, device_left))

-- A device that has given its free lines away: the lines 1 to `n` are free, the queue is `q`, and
-- the pointer is at `w`.
abbrev used : ℕ → Entries → WritePointer → Ssd Entries
used n q w = record device {
  wp = w;
  lm = record (device.lm) { free_line_list = range 1 n; victim_line_pq = q };
}

used-SameMap : (n : ℕ) (q : Entries) (w : WritePointer) → SameMap device (used n q w)
unfolding get_pg get_blk
used-SameMap n q w = record { sp = refl; maptbl = refl; rmap = refl; status = λ p. refl }

used-IsConsistent :
    (n : ℕ) (q : Entries) (w : WritePointer)
    → n ≤ 255
    → IsOpen device.sp w
    → w.curline ≡ 0
    → w.blk ≡ 0
    → IsConsistent (used n q w)
unfolding get_pg get_blk
used-IsConsistent n q w small o cur blk =
    let k = device-IsConsistent in
    let f = device-IsFresh in
    record {
      tables = SameMap-IsMapped (used-SameMap n q w) _ _ k.tables;
      room = record {
        layout = k.room.layout;
        opened = o;
        curline = cur ∙ sym blk;
        ids = k.room.ids;
        room = λ p i _ _. f.status p i;
        spare =
            λ i c. let (a, b) = within-range i 1 n c in (omega arith, λ e. omega (arith, e ∙ blk));
        spare_free = λ p i _. f.status p i;
        distinct = range-Distinct 1 n;
      };
    }

-- The last page of line 0.
abbrev last : WritePointer
last = record { curline = 0; ch = 0; lun = 7; pg = 255; blk = 0; pl = 0 }

last-IsOpen : IsOpen device.sp last
unfolding ssd_init_params
last-IsOpen = record {
  ch = omega (arith, ap (λ (x : SsdParams). x.nchs) device-IsFresh.sp);
  lun = omega arith;
  pl = refl;
  blk = omega arith;
  pg = omega arith;
}

full : Ssd Entries
full = used 0 [] last

full_left : pages_left full ≡ 1
unfolding full ssd_init_params ssd_init_lines ssd_init_rmap ssd_init_maptbl init_nchs
full_left = refl

write_page_full_example : write_page 500 10 (0, full) ≡ fault
unfolding full
write_page_full_example =
    write_page_full sample-IsPqueue 500 10 0 full
      (used-IsConsistent 0 [] last (omega arith) last-IsOpen refl refl) (omega (arith, device_pgs))
      full_left

-- Line 200 waits as a victim, and the lines 1 to 100 are free.
abbrev waiting : Ssd Entries
waiting = used 100 ((200, 5) ∷ []) device.wp

waiting-IsConsistent : IsConsistent waiting
waiting-IsConsistent =
    used-IsConsistent 100 ((200, 5) ∷ []) device.wp (omega arith) device-IsConsistent.room.opened
      refl refl

waiting_left : pages_left waiting ≡ 206848
unfolding ssd_init_params ssd_init_lines ssd_init_rmap ssd_init_maptbl init_nchs
waiting_left = refl

waiting-IsApart : (v : ℕ) → sample.peek ((200, 5) ∷ []) ≡ some v → IsApart v waiting
unfolding ssd_init_params ssd_init_lines ssd_init_rmap ssd_init_maptbl init_nchs
waiting-IsApart v e =
    let same : 200 ≡ v =
      ap (λ (o : Option ℕ). elim o [ none ↦ 200 | some i ↦ i ]) (sym (sample-peek 200 5 []) ∙ e) in
    subst (λ i. IsApart i waiting) same
      (record { inside = omega arith; not_current = λ f. omega (arith, f); not_free = refl })

device_line : device.sp.pgs_per_line ≡ 2048
unfolding ssd_init_params
device_line = ap (λ (x : SsdParams). x.pgs_per_line) device-IsFresh.sp

do_gc_left_example :
    (r : Bool) × (s' : Ssd Entries) × (do_gc true waiting ≡ ok (r, s'))
    × (pages_left waiting ≤ pages_left s')
    × IsConsistent s'
    × Remains waiting s'
    × IsReclaimed sample-IsPqueue r waiting s'
do_gc_left_example =
    do_gc_left sample-IsPqueue true waiting waiting-IsConsistent waiting-IsApart
      (omega (arith, device_line, waiting_left))
