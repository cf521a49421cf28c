-- ===== src/Ftl/Fresh.antt =====
-- ssd_init: the device that it builds has no mapped page, and meets the invariant.
use femu_on_virt.Base.{
  ℕ, zero, suc, ◌+◌, ◌*◌, ◌/◌, ◌%◌, ◌^◌, ◌≤◌, ◌<◌, ◌≡◌, refl, sym, ◌∙◌, ap, true, false, ◌&&◌, List,
  [], ◌∷◌, ◌++◌, ok, ◌>>=◌, arith, ltb, leb, contains, update, if◌then◌else◌, inc32, dec32, w64,
  range-Distinct, within-range, range,
}
use mathlib.Core.List.{append-nil, append_assoc}
use femu_on_virt.Ftl.Types.{Ppa, unmapped_ppa, invalid_lpn, LineMgmt, Ssd, pg_free}
use femu_on_virt.Ftl.Victims.{Pqueue}
use femu_on_virt.Ftl.Params.{ssd_init_params}
use femu_on_virt.Ftl.Table.{mapped_ppa, get_pg, get_blk}
use femu_on_virt.Ftl.Init.{
  init_array, int_rounds, ssd_init_ch, init_nchs, ssd_init_maptbl, ssd_init_rmap, init_lines,
  ssd_init_write_pointer, ssd_init_lines, ssd_init,
}
use femu_on_virt.Ftl.Geometry.{IsLayout, IsPage, init_params-IsLayout}
use femu_on_virt.Ftl.Cells.{pg_status}
use femu_on_virt.Ftl.Mapping.{IsMapped, IsConsistent, none_skipped, none_stale}

module _ {Q : Type 0} where
  -- The loop of ssd_init_lines.
  record LinesFrom (i k : ℕ) (lm lm' : LineMgmt Q) : Type 0 where
    free : lm'.free_line_list ≡ lm.free_line_list ++ range i k
    lines :
        (j : ℕ)
        → lm'.lines j ≡ (
            if leb i j && ltb j (i + k)
            then record { id = j; ipc = 0; vpc = 0; pos = 0 }
            else lm.lines j)
    count : lm'.free_line_cnt ≡ (lm.free_line_cnt + k) % 2 ^ 32
    pq : lm'.victim_line_pq ≡ lm.victim_line_pq

  init_lines-LinesFrom :
      (k i : ℕ) (lm : LineMgmt Q) → lm.free_line_cnt < 2 ^ 32 → LinesFrom i k lm (init_lines k i lm)
  unfolding init_lines
  init_lines-LinesFrom zero i lm h = record {
    free = sym (append-nil lm.free_line_list);
    lines = λ j. ground arith;
    count = omega arith;
    pq = refl;
  }
  init_lines-LinesFrom (suc k) i lm h =
      let next : LineMgmt Q = record lm {
        lines = update lm.lines i (record { id = i; ipc = 0; vpc = 0; pos = 0 });
        free_line_list = lm.free_line_list ++ i ∷ [];
        free_line_cnt = inc32 lm.free_line_cnt;
      } in
      let r = init_lines-LinesFrom k (suc i) next (omega arith) in
      record {
        free = r.free ∙ append_assoc lm.free_line_list (i ∷ []) (range (suc i) k);
        lines = λ j. ground (arith, r.lines j);
        count = omega (arith, r.count);
        pq = r.pq;
      }

-- What ssd_init leaves.
pub record IsFresh {Q : Type 0} (nchs : ℕ) (s : Ssd Q) : Type 0 where
  pub sp : s.sp ≡ ssd_init_params nchs
  pub maptbl : (l : ℕ) → l < s.sp.tt_pgs → s.maptbl l ≡ unmapped_ppa
  pub rmap : (x : ℕ) → x < s.sp.tt_pgs → s.rmap x ≡ invalid_lpn
  pub status : (p : Ppa) → IsPage s.sp p → pg_status s p ≡ pg_free
  pub wp : s.wp ≡ record { curline = 0; ch = 0; lun = 0; pg = 0; blk = 0; pl = 0 }
  pub free : s.lm.free_line_list ≡ range 1 255
  pub free_cnt : s.lm.free_line_cnt ≡ 255
  pub lines : (i : ℕ) → i < 256 → s.lm.lines i ≡ record { id = i; ipc = 0; vpc = 0; pos = 0 }

unmapped : mapped_ppa unmapped_ppa ≡ false
unfolding mapped_ppa
unmapped = refl

module _ {Q : Type 0} (nchs : ℕ) (s : Ssd Q) (f : IsFresh nchs s) (some_chs : 0 < nchs)
    (few_chs : nchs ≤ 128) where
  pub fresh-IsLayout : IsLayout s.sp
  fresh-IsLayout = rw f.sp (init_params-IsLayout nchs some_chs few_chs)

  -- No page is valid and no logical page is mapped, so the tables agree.
  fresh-IsMapped : IsMapped s none_skipped none_stale
  fresh-IsMapped = record {
    entry = λ l i _ m. absurd (cc (m, f.maptbl l i, unmapped));
    owned = λ p i _ v. absurd (omega (arith, v, f.status p i));
  }

  spare_range : (i : ℕ) → contains i s.lm.free_line_list ≡ true → (0 < i) × (i < 256)
  spare_range i c = within-range i 1 255 (rw f.free at c)

  pub fresh-IsConsistent : IsConsistent s
  fresh-IsConsistent = record {
    tables = fresh-IsMapped;
    room = record {
      layout = fresh-IsLayout;
      opened = rw f.wp (record {
        ch = fresh-IsLayout.some_chs;
        lun = omega arith;
        pl = refl;
        blk = omega arith;
        pg = omega arith;
      });
      curline = rw f.wp refl;
      ids = λ i k. rw (f.lines i k) refl;
      room = λ p i _ _. f.status p i;
      spare = λ i c. let (pos, lt) = spare_range i c in (lt, rw f.wp (omega arith));
      spare_free = λ p i _. f.status p i;
      distinct = rw f.free (range-Distinct 1 255);
    };
  }

module _ {Q : Type 0} ⦃pq : Pqueue Q⦄ where
  init_wp :
      (t : Ssd Q) (c : ℕ) (rest : List ℕ)
      → t.lm.free_line_list ≡ c ∷ rest
      → ssd_init_write_pointer t
        ≡ ok (record t {
          wp = record { curline = c; ch = 0; lun = 0; pg = 0; blk = 0; pl = 0 };
          lm = record (t.lm) { free_line_list = rest; free_line_cnt = dec32 t.lm.free_line_cnt };
        })
  unfolding ssd_init_write_pointer
  init_wp t c rest e = rw e refl

  -- Every `struct ppa` that names a page of the device is set up as a free page.
  chs-free :
      (nchs : ℕ) (s : Ssd Q) (p : Ppa)
      → IsPage (ssd_init_params nchs) p
      → pg_status
          (record s {
            ch = init_array nchs (λ i. ssd_init_ch (ssd_init_params nchs) (s.ch i)) s.ch;
          })
          p
        ≡ pg_free
  unfolding ssd_init_params ssd_init_ch get_pg get_blk
  chs-free nchs s p i = ground (arith, i.ch, i.lun, i.pl, i.blk, i.pg)

  module _ (cpu memmap_size : ℕ) (s : Ssd Q) (some_chs : 0 < init_nchs memmap_size)
      (few_chs : init_nchs memmap_size ≤ 128) where
    abbrev nchs : ℕ
    nchs = init_nchs memmap_size

    -- The device before ssd_init_write_pointer.
    abbrev pub built : Ssd Q
    built = ssd_init_lines (
        ssd_init_rmap (
          ssd_init_maptbl (record s {
            cpu_nr_dispatcher = cpu;
            sp = ssd_init_params nchs;
            ch = init_array nchs (λ i. ssd_init_ch (ssd_init_params nchs) (s.ch i)) s.ch;
          })))

    empty_lm : LineMgmt Q
    empty_lm = record (s.lm) {
      tt_lines = 256;
      free_line_list = [];
      victim_line_pq = pq.init 256;
      full_line_list = [];
      free_line_cnt = 0;
    }

    filled : LinesFrom 0 256 empty_lm (init_lines 256 0 empty_lm)
    unfolding empty_lm
    filled = init_lines-LinesFrom 256 0 empty_lm (omega arith)

    built_free : built.lm.free_line_list ≡ 0 ∷ range 1 255
    unfolding ssd_init_lines ssd_init_maptbl ssd_init_rmap ssd_init_params empty_lm
    built_free = filled.free

    built_lines :
        (i : ℕ) → i < 256 → built.lm.lines i ≡ record { id = i; ipc = 0; vpc = 0; pos = 0 }
    unfolding ssd_init_lines ssd_init_maptbl ssd_init_rmap ssd_init_params empty_lm
    built_lines i k = filled.lines i ∙ ground arith

    built_cnt : built.lm.free_line_cnt ≡ 256
    unfolding ssd_init_lines ssd_init_maptbl ssd_init_rmap ssd_init_params empty_lm
    built_cnt = filled.count

    -- The device behind ssd_init.
    abbrev pub opened : Ssd Q
    opened = record (built) {
      wp = record { curline = 0; ch = 0; lun = 0; pg = 0; blk = 0; pl = 0 };
      lm = record (built.lm) {
        free_line_list = range 1 255;
        free_line_cnt = dec32 built.lm.free_line_cnt;
      };
    }

    all_pages : int_rounds (ssd_init_params nchs).tt_pgs ≡ (ssd_init_params nchs).tt_pgs
    all_pages =
        let layout = init_params-IsLayout nchs some_chs few_chs in ground (arith, layout.size)

    pub opened-IsFresh : IsFresh nchs opened
    unfolding ssd_init_lines ssd_init_maptbl ssd_init_rmap get_pg get_blk
    opened-IsFresh = record {
      sp = refl;
      maptbl = λ l k. ground (arith, all_pages);
      rmap = λ l k. ground (arith, all_pages);
      status = λ p i. chs-free nchs s p i;
      wp = refl;
      free = refl;
      free_cnt = rw built_cnt refl;
      lines = built_lines;
    }

    -- ssd_init succeeds for a reserved memory that gives 1 to 128 channels. It returns the size of
    -- the memory times 100, as a 64-bit product, divided by 100 as the logical space, and a
    -- consistent device with every page free, every table entry unset, line 0 open and the lines 1
    -- to 255 free.
    pub ssd_init-IsConsistent :
        (s' : Ssd Q) × (ssd_init cpu memmap_size s ≡ ok (w64 (memmap_size * 100) / 100, s'))
        × IsFresh nchs s'
        × IsConsistent s'
    unfolding ssd_init ssd_init_params
    ssd_init-IsConsistent = (
      opened,
      ap (λ r. r >>= λ s2. ok (w64 (memmap_size * 100) / 100, s2))
          (init_wp built 0 (range 1 255) built_free),
      opened-IsFresh,
      fresh-IsConsistent nchs opened opened-IsFresh some_chs few_chs,
    )
