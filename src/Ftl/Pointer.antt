-- ===== src/Ftl/Pointer.antt =====
-- The write pointer (get_new_page, ssd_advance_write_pointer): the order in which it visits the
-- pages of a line, and what happens at the end of one.
use femu_on_virt.Base.{
  ℕ, suc, ◌+◌, ◌*◌, ◌<◌, ◌≡◌, ◌↔◌, inl, inr, true, ok, arith, ◌==◌, if◌then◌else◌, Bool-cases,
  ==_iff, ap,
}
use femu_on_virt.Ftl.Types.{SsdParams, WritePointer, Ssd}
use femu_on_virt.Ftl.Victims.{Pqueue}
use femu_on_virt.Ftl.Table.{mapped_ppa}
use femu_on_virt.Ftl.Lines.{get_new_page, open_next_line, retire_curline, ssd_advance_write_pointer}
use femu_on_virt.Ftl.Geometry.{IsLayout, IsPage}

-- The pointer is at a page of the device.
pub record IsOpen (spp : SsdParams) (w : WritePointer) : Type 0 where
  pub ch : w.ch < spp.nchs
  pub lun : w.lun < 8
  pub pl : w.pl ≡ 0
  pub blk : w.blk < 256
  pub pg : w.pg < 256

-- How many pages of a line the pointer passes before the page `(ch, lun, pg)`.
abbrev pub rank : SsdParams → ℕ → ℕ → ℕ → ℕ
rank spp ch lun pg = (pg * 8 + lun) * spp.nchs + ch

abbrev pub wp_rank : {Q : Type 0} → Ssd Q → ℕ
wp_rank s = rank s.sp s.wp.ch s.wp.lun s.wp.pg

module _ {Q : Type 0} where
  pub new_page-mapped : (s : Ssd Q) → mapped_ppa (get_new_page s) ≡ true
  unfolding get_new_page mapped_ppa
  new_page-mapped s = ground arith

  pub new_page-sec : (s : Ssd Q) → (get_new_page s).sec ≡ 0
  unfolding get_new_page
  new_page-sec s = omega arith

  pub new_page-IsPage :
      (s : Ssd Q) → IsLayout s.sp → IsOpen s.sp s.wp → IsPage s.sp (get_new_page s)
  unfolding get_new_page
  new_page-IsPage s l o = omega arith

  -- The new page stands where the pointer stands.
  pub new_page_at :
      (s : Ssd Q)
      → IsLayout s.sp
      → IsOpen s.sp s.wp
      → ((get_new_page s).ch ≡ s.wp.ch)
        × ((get_new_page s).lun ≡ s.wp.lun)
        × ((get_new_page s).pl ≡ s.wp.pl)
        × ((get_new_page s).blk ≡ s.wp.blk)
        × ((get_new_page s).pg ≡ s.wp.pg)
  unfolding get_new_page
  new_page_at s l o = omega arith

  pub rank-lt : (s : Ssd Q) → IsLayout s.sp → IsOpen s.sp s.wp → wp_rank s < s.sp.pgs_per_line
  rank-lt s l o = grind arith

module _ {Q : Type 0} ⦃pq : Pqueue Q⦄ where
  -- The pointer after the last page of a line, before the next line is opened.
  abbrev pub rewound : Ssd Q → Ssd Q
  rewound s = record s { wp = record (s.wp) { ch = 0; lun = 0; pg = 0 } }

  -- Where the pointer goes within a line: channel first, then LUN, then page.
  abbrev next_wp : Ssd Q → WritePointer
  next_wp s =
      if suc s.wp.ch == s.sp.nchs
      then (if suc s.wp.lun == 8
          then record (s.wp) { ch = 0; lun = 0; pg = suc s.wp.pg }
          else record (s.wp) { ch = 0; lun = suc s.wp.lun })
      else record (s.wp) { ch = suc s.wp.ch }

  last_page :
      (s : Ssd Q)
      → IsLayout s.sp
      → IsOpen s.sp s.wp
      → suc (wp_rank s) ≡ s.sp.pgs_per_line
        ↔ ((suc s.wp.ch ≡ s.sp.nchs) × (s.wp.lun ≡ 7) × (s.wp.pg ≡ 255))
  last_page s l o = grind arith

  rank-next_wp :
      (s : Ssd Q)
      → IsOpen s.sp s.wp
      → rank s.sp (next_wp s).ch (next_wp s).lun (next_wp s).pg ≡ suc (wp_rank s)
  rank-next_wp s o = elim (Bool-cases (suc s.wp.ch == s.sp.nchs)) [
    | inl e ↦ rw e (elim (Bool-cases (suc s.wp.lun == 8)) [
      | inl f ↦ rw f (
          omega (
            arith,
            (==_iff _ _).0 e,
            (==_iff _ _).0 f,
            ap (λ (n : ℕ). n * s.sp.nchs) ((==_iff _ _).0 f),
          ))
      | inr f ↦ rw f (omega (arith, (==_iff _ _).0 e))
    ])
    | inr e ↦ rw e (omega arith)
  ]

  pub advance_within :
      (s : Ssd Q)
      → IsLayout s.sp
      → IsOpen s.sp s.wp
      → suc (wp_rank s) < s.sp.pgs_per_line
      → (w : WritePointer) × (ssd_advance_write_pointer s ≡ ok (record s { wp = w }))
        × IsOpen s.sp w
        × (rank s.sp w.ch w.lun w.pg ≡ suc (wp_rank s))
        × (w.curline ≡ s.wp.curline)
        × (w.blk ≡ s.wp.blk)
  unfolding ssd_advance_write_pointer
  advance_within s l o h = (
    next_wp s,
    ground (arith, last_page s l o),
    ground (arith, last_page s l o),
    rank-next_wp s o,
    ground arith,
    ground arith,
  )

  pub advance_at_end :
      (s : Ssd Q)
      → IsLayout s.sp
      → IsOpen s.sp s.wp
      → suc (wp_rank s) ≡ s.sp.pgs_per_line
      → ssd_advance_write_pointer s ≡ open_next_line (retire_curline (rewound s))
  unfolding ssd_advance_write_pointer
  advance_at_end s l o h = ground (arith, last_page s l o)
