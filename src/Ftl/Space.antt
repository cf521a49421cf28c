-- ===== src/Ftl/Space.antt =====
-- The pages that the write pointer can still reach. A write takes one, and the device faults when it
-- takes the last one.
use femu_on_virt.Base.{
  ℕ, zero, suc, ◌+◌, ◌-◌, ◌*◌, ◌≤◌, ◌<◌, ◌≡◌, refl, sym, ◌∙◌, ap, List, [], ◌∷◌, length, ok, fault,
  ◌>>=◌, arith,
}
use native.Mathlib.Decide.{dec_lt}
use femu_on_virt.Ftl.Types.{SsdParams, WritePointer, Ssd, nand_write}
use femu_on_virt.Ftl.Victims.{Pqueue, IsPqueue}
use femu_on_virt.Ftl.Nand.{ssd_advance_status}
use femu_on_virt.Ftl.Lines.{get_new_page, retire_curline, ssd_advance_write_pointer}
use femu_on_virt.Ftl.Io.{drop_old_page, write_page, write_pages, max_lat, user_cmd}
use femu_on_virt.Ftl.Pointer.{rank, wp_rank, rank-lt, rewound, advance_within, advance_at_end}
use femu_on_virt.Ftl.Cells.{advance_status-SameTables}
use femu_on_virt.Ftl.Mapping.{HasRoom, IsConsistent}
use femu_on_virt.Ftl.Advance.{open-cons, open-nil, opened_state, retire-SameMap, retire_keeps}
use femu_on_virt.Ftl.Write.{
  filled, filled-Assigned, dropped, filled_sound, Remapped, in_range, write_page-IsConsistent,
  write_pages-IsConsistent,
}

abbrev pub left_of : SsdParams → WritePointer → List ℕ → ℕ
left_of spp w l = spp.pgs_per_line * length l + (spp.pgs_per_line - rank spp w.ch w.lun w.pg)

-- The free lines' pages, and those of the current line from the pointer on.
abbrev pub pages_left : {Q : Type 0} → Ssd Q → ℕ
pages_left s = left_of s.sp s.wp s.lm.free_line_list

pub mul_suc : (n k : ℕ) → n * suc k ≡ n + n * k
mul_suc n k = grind arith

one_left : (l : List ℕ) (n r : ℕ) → r < n → n * length l + (n - r) ≡ 1 → (l ≡ []) × (suc r ≡ n)
one_left [] n r lt e = (refl, omega arith)
one_left (x ∷ xs) n r lt e = absurd (omega (arith, mul_suc n (length xs)))

-- A new line's pages count as much as they did on the free list.
reopened_left :
    {Q : Type 0} (s : Ssd Q) (w : WritePointer) (r i : ℕ) (rest : List ℕ) (spp : SsdParams)
    → s.sp.pgs_per_line ≡ spp.pgs_per_line
    → rank s.sp w.ch w.lun w.pg ≡ 0
    → suc r ≡ spp.pgs_per_line
    → suc (left_of s.sp w rest) ≡ spp.pgs_per_line * length (i ∷ rest) + (spp.pgs_per_line - r)
reopened_left s w r i rest spp a b c =
    rw (a, b) (omega (arith, mul_suc spp.pgs_per_line (length rest)))

module _ {Q : Type 0} ⦃pq : Pqueue Q⦄ (laws : IsPqueue pq) where
  module _ (s : Ssd Q) (h : HasRoom s (suc (wp_rank s))) where
    abbrev retired : Ssd Q
    retired = retire_curline (rewound s)

    -- At the end of a line the next free line is opened.
    reopen :
        (l : List ℕ)
        → s.lm.free_line_list ≡ l
        → suc (wp_rank s) ≡ s.sp.pgs_per_line
        → 1 < pages_left s
        → (s' : Ssd Q) × (ssd_advance_write_pointer s ≡ ok s')
          × (suc (pages_left s') ≡ pages_left s)
    reopen [] e full m =
        absurd (omega (arith, ap length e, ap (λ n. s.sp.pgs_per_line * n) (ap length e)))
    reopen (i ∷ rest) e full m =
        let keeps = retire_keeps laws (rewound s) in
        let same = retire-SameMap laws (rewound s) in
        let t = opened_state retired i rest in
        let at : wp_rank t ≡ 0 = rw (same.sp, keeps.0) (omega arith) in
        (
          t,
          advance_at_end s h.layout h.opened full ∙ open-cons retired i rest (keeps.1 ∙ e),
          reopened_left retired t.wp (wp_rank s) i rest s.sp
                (ap (λ (x : SsdParams). x.pgs_per_line) same.sp) at full
              ∙ ap (λ l. s.sp.pgs_per_line * length l + (s.sp.pgs_per_line - wp_rank s)) (sym e),
        )

    -- When the page under the pointer has been taken and more than one page is left, the write
    -- pointer advances, and then one page less is left: it passes every page of a line once, and
    -- opens the next free line at the end of one.
    pub advance_left :
        1 < pages_left s
        → (s' : Ssd Q) × (ssd_advance_write_pointer s ≡ ok s')
          × (suc (pages_left s') ≡ pages_left s)
    advance_left m = elim (dec_lt (suc (wp_rank s)) s.sp.pgs_per_line) [
      | yes k ↦
          let (w, to, o, r, c, b) = advance_within s h.layout h.opened k in
          (record s { wp = w }, to, omega arith)
      | no k ↦
          let full : suc (wp_rank s) ≡ s.sp.pgs_per_line =
            omega (arith, rank-lt s h.layout h.opened) in
          reopen s.lm.free_line_list refl full m
    ]

    pub advance_full : pages_left s ≡ 1 → ssd_advance_write_pointer s ≡ fault
    advance_full m =
        let (none_free, full) =
          one_left s.lm.free_line_list s.sp.pgs_per_line (wp_rank s) (rank-lt s h.layout h.opened)
            m in
        advance_at_end s h.layout h.opened full
        ∙ open-nil retired ((retire_keeps laws (rewound s)).1 ∙ none_free)

  -- One page of a write.
  module _ (stime lpn maxlat : ℕ) (s : Ssd Q) (k : IsConsistent s)
      (inside : lpn < s.sp.tt_pgs) where
    abbrev before : Ssd Q
    before = filled laws lpn s k inside

    before_left : pages_left before ≡ pages_left s
    before_left =
        let a = filled-Assigned laws lpn s k inside in
        let d = dropped laws lpn s k inside in rw (a.sp, a.wp, a.free, d.sp, d.wp, d.free) refl

    pub write_page_left :
        1 < pages_left s
        → (lat : ℕ) × (s' : Ssd Q) × (write_page stime lpn (maxlat, s) ≡ ok (lat, s'))
          × (suc (pages_left s') ≡ pages_left s)
    unfolding write_page
    write_page_left m =
        let h = (filled_sound laws lpn s k inside).1 in
        let (t, to, left) = advance_left before h (omega (arith, before_left)) in
        let c = user_cmd nand_write stime in
        let p = get_new_page (drop_old_page lpn s) in
        let e = advance_status-SameTables t p c in
        (
          max_lat (ssd_advance_status p c t).0 maxlat,
          (ssd_advance_status p c t).1,
          rw to refl,
          ap suc (rw (e.sp, e.wp, e.free) refl) ∙ left ∙ before_left,
        )

    -- On a consistent device with exactly one page left in front of the write pointer, writing a
    -- logical page within the device faults: the pointer asks for a free line, there is none, and
    -- the NULL line is dereferenced.
    pub write_page_full : pages_left s ≡ 1 → write_page stime lpn (maxlat, s) ≡ fault
    unfolding write_page
    write_page_full m =
        rw (advance_full before (filled_sound laws lpn s k inside).1 (before_left ∙ m)) refl

  pages_run :
      (n lpn stime maxlat : ℕ) (s : Ssd Q)
      → IsConsistent s
      → lpn + n ≤ s.sp.tt_pgs
      → n < pages_left s
      → (lat : ℕ) × (s' : Ssd Q) × (write_pages n lpn stime (maxlat, s) ≡ ok (lat, s'))
        × (pages_left s' + n ≡ pages_left s)
  unfolding write_pages
  pages_run zero lpn stime maxlat s k i m = (maxlat, s, refl, omega arith)
  pages_run (suc n) lpn stime maxlat s k i m =
      let (lat, t, one, left) = write_page_left stime lpn maxlat s k (omega arith) (omega arith) in
      let (c, r) = write_page-IsConsistent laws stime lpn maxlat lat s t k (omega arith) one in
      let (lat', u, others, rest) =
        pages_run n (suc lpn) stime lat t c (rw r.sp (omega arith)) (omega arith) in
      (lat', u, ap (λ x. x >>= write_pages n (suc lpn) stime) one ∙ others, omega arith)

  -- From a consistent device, for `n` logical pages from `lpn` on that lie within the device, with
  -- more than `n` pages left in front of the write pointer, write_pages succeeds. It takes exactly
  -- `n` of these pages, maptbl and rmap are again inverse to one another on the valid pages with
  -- every page to come free, the `n` logical pages become mapped, no other logical page's entry
  -- changes, and none becomes unmapped.
  pub write_pages_left :
      (n lpn stime maxlat : ℕ) (s : Ssd Q)
      → IsConsistent s
      → lpn + n ≤ s.sp.tt_pgs
      → n < pages_left s
      → (lat : ℕ) × (s' : Ssd Q) × (write_pages n lpn stime (maxlat, s) ≡ ok (lat, s'))
        × (pages_left s' + n ≡ pages_left s)
        × IsConsistent s'
        × Remapped (in_range lpn n) s s'
  write_pages_left n lpn stime maxlat s k i m =
      let (lat, t, done, left) = pages_run n lpn stime maxlat s k i m in
      let (c, r) = write_pages-IsConsistent laws n lpn stime maxlat lat s t k i done in
      (lat, t, done, left, c, r)
