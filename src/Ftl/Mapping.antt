-- ===== src/Ftl/Mapping.antt =====
-- The invariant of the page mapping: maptbl and rmap are inverse to one another on the valid pages,
-- and every page that the write pointer will reach is free.
use femu_on_virt.Base.{
  ℕ, ◌≤◌, ◌<◌, ◌≡◌, ◌≢◌, sym, ◌∙◌, subst, Bool, true, false, contains, Distinct,
}
use femu_on_virt.Ftl.Types.{Ppa, Ssd, pg_free, pg_valid}
use femu_on_virt.Ftl.Table.{ppa2pgidx, mapped_ppa}
use femu_on_virt.Ftl.Geometry.{IsLayout, IsPage, SamePage}
use femu_on_virt.Ftl.Pointer.{IsOpen, rank, wp_rank}
use femu_on_virt.Ftl.Cells.{pg_status}

-- An entry of maptbl: a page of the device that is valid and owned by the same logical page.
pub record Entry {Q : Type 0} (s : Ssd Q) (lpn : ℕ) (p : Ppa) : Type 0 where
  pub page : IsPage s.sp p
  pub owner : s.rmap (ppa2pgidx s.sp p) ≡ lpn
  pub status : pg_status s p ≡ pg_valid
  pub sec : p.sec ≡ 0

-- A page's owner: a logical page whose entry of maptbl is this page.
pub record Owned {Q : Type 0} (s : Ssd Q) (lpn : ℕ) (p : Ppa) : Type 0 where
  pub inside : lpn < s.sp.tt_pgs
  pub mapped : mapped_ppa (s.maptbl lpn) ≡ true
  pub same : SamePage (s.maptbl lpn) p

-- The tables, but for the logical pages in `skip` and the physical pages in `stale`.
pub record IsMapped {Q : Type 0} (s : Ssd Q) (skip : ℕ → Bool) (stale : Ppa → Bool) : Type 0 where
  pub entry :
      (lpn : ℕ)
      → lpn < s.sp.tt_pgs
      → skip lpn ≡ false
      → mapped_ppa (s.maptbl lpn) ≡ true
      → Entry s lpn (s.maptbl lpn) × (stale (s.maptbl lpn) ≡ false)
  pub owned :
      (p : Ppa)
      → IsPage s.sp p
      → stale p ≡ false
      → pg_status s p ≡ pg_valid
      → Owned s (s.rmap (ppa2pgidx s.sp p)) p × (skip (s.rmap (ppa2pgidx s.sp p)) ≡ false)

-- The lines that the pointer has or will get, and their free pages. `from` is the first rank of the
-- current line that is free.
pub record HasRoom {Q : Type 0} (s : Ssd Q) (from : ℕ) : Type 0 where
  pub layout : IsLayout s.sp
  pub opened : IsOpen s.sp s.wp
  pub curline : s.wp.curline ≡ s.wp.blk
  pub ids : (i : ℕ) → i < 256 → (s.lm.lines i).id ≡ i
  pub room :
      (p : Ppa)
      → IsPage s.sp p
      → p.blk ≡ s.wp.blk
      → from ≤ rank s.sp p.ch p.lun p.pg
      → pg_status s p ≡ pg_free
  pub spare : (i : ℕ) → contains i s.lm.free_line_list ≡ true → (i < 256) × (i ≢ s.wp.blk)
  pub spare_free :
      (p : Ppa)
      → IsPage s.sp p
      → contains p.blk s.lm.free_line_list ≡ true
      → pg_status s p ≡ pg_free
  pub distinct : Distinct s.lm.free_line_list

abbrev pub none_skipped : ℕ → Bool
none_skipped lpn = false

abbrev pub none_stale : Ppa → Bool
none_stale p = false

pub record IsConsistent {Q : Type 0} (s : Ssd Q) : Type 0 where
  pub tables : IsMapped s none_skipped none_stale
  pub room : HasRoom s (wp_rank s)

-- What the invariant of the tables reads.
pub record SameMap {Q : Type 0} (s s' : Ssd Q) : Type 0 where
  pub sp : s'.sp ≡ s.sp
  pub maptbl : s'.maptbl ≡ s.maptbl
  pub rmap : s'.rmap ≡ s.rmap
  pub status : (p : Ppa) → pg_status s' p ≡ pg_status s p

module _ {Q : Type 0} {s s' : Ssd Q} (e : SameMap s s') where
  same_idx : (p : Ppa) → s'.rmap (ppa2pgidx s'.sp p) ≡ s.rmap (ppa2pgidx s.sp p)
  same_idx p = rw (e.sp, e.rmap)

  pub SameMap-Entry : (lpn : ℕ) (p : Ppa) → Entry s lpn p → Entry s' lpn p
  SameMap-Entry lpn p t = record {
    page = rw e.sp t.page;
    owner = same_idx p ∙ t.owner;
    status = e.status p ∙ t.status;
    sec = t.sec;
  }

  pub SameMap-Owned : (lpn : ℕ) (p : Ppa) → Owned s lpn p → Owned s' lpn p
  SameMap-Owned lpn p t = record {
    inside = rw e.sp t.inside;
    mapped = rw e.maptbl t.mapped;
    same = rw e.maptbl t.same;
  }

  pub SameMap-IsMapped :
      (skip : ℕ → Bool) (stale : Ppa → Bool) → IsMapped s skip stale → IsMapped s' skip stale
  SameMap-IsMapped skip stale m = record {
    entry = λ l i k f.
        let was = m.entry l (rw e.sp at i) k (rw e.maptbl at f) in
        subst (λ (t : ℕ → Ppa). Entry s' l (t l) × (stale (t l) ≡ false)) (sym e.maptbl)
          (SameMap-Entry l (s.maptbl l) was.0, was.1);
    owned = λ p i f v.
        let was = m.owned p (rw e.sp at i) f (sym (e.status p) ∙ v) in
        subst (λ (k : ℕ). Owned s' k p × (skip k ≡ false)) (sym (same_idx p))
          (SameMap-Owned _ p was.0, was.1);
  }

-- Line `b` is neither the current line nor free: the collector can work on it.
pub record IsApart {Q : Type 0} (b : ℕ) (s : Ssd Q) : Type 0 where
  pub inside : b < 256
  pub not_current : b ≢ s.wp.blk
  pub not_free : contains b s.lm.free_line_list ≡ false
