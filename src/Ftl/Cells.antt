-- ===== src/Ftl/Cells.antt =====
-- The status of a page after each kind of write to the array: the laws by which the later proofs
-- read it.
use femu_on_virt.Base.{ℕ, ◌≡◌, ◌↔◌, refl, Bool, true, ◌&&◌, arith, ltb, ◌==◌, if◌then◌else◌}
use femu_on_virt.Ftl.Types.{Ppa, NandBlock, NandCmd, Ssd, pg_free, pg_valid}
use femu_on_virt.Ftl.Table.{get_pg, get_blk, get_line, get_lun, set_lun, set_blk, set_line}
use femu_on_virt.Ftl.Geometry.{SamePage}
use femu_on_virt.Ftl.Nand.{ssd_advance_status}
use femu_on_virt.Ftl.Pages.{set_page, mark_page_valid, mark_block_free}

abbrev pub same_blk : Ppa → Ppa → Bool
same_blk p q = (p.ch == q.ch) && ((p.lun == q.lun) && ((p.pl == q.pl) && (p.blk == q.blk)))

abbrev pub same_page : Ppa → Ppa → Bool
same_page p q = same_blk p q && (p.pg == q.pg)

pub same_page_iff : (p q : Ppa) → (same_page p q ≡ true) ↔ SamePage p q
same_page_iff p q = ground arith

module _ {Q : Type 0} where
  abbrev pub pg_status : Ssd Q → Ppa → ℕ
  pg_status s p = (get_pg s p).status

  pub status-SamePage : (s : Ssd Q) (p q : Ppa) → SamePage p q → pg_status s p ≡ pg_status s q
  unfolding get_pg get_blk
  status-SamePage s p q e = cc (e.ch, e.lun, e.pl, e.blk, e.pg)

  get_blk-set_blk :
      (s : Ssd Q) (p q : Ppa) (b : NandBlock)
      → get_blk (set_blk s p b) q ≡ (if same_blk p q then b else get_blk s q)
  unfolding set_blk get_blk
  get_blk-set_blk s p q b = ground arith

  pub status-set_page :
      (s : Ssd Q) (p q : Ppa) (status ipc vpc : ℕ)
      → pg_status (set_page p status ipc vpc s) q
        ≡ (if same_page p q then status else pg_status s q)
  unfolding set_page set_blk get_blk get_pg
  status-set_page s p q status ipc vpc = ground arith

  -- Everything but the array and the lines is as it was.
  pub record SameTables (s s' : Ssd Q) : Type 0 where
    pub sp : s'.sp ≡ s.sp
    pub maptbl : s'.maptbl ≡ s.maptbl
    pub rmap : s'.rmap ≡ s.rmap
    pub wp : s'.wp ≡ s.wp
    pub free : s'.lm.free_line_list ≡ s.lm.free_line_list
    pub ids : (i : ℕ) → (s'.lm.lines i).id ≡ (s.lm.lines i).id

  pub status-mark_page_valid :
      (s : Ssd Q) (p q : Ppa)
      → pg_status (mark_page_valid p s) q ≡ (if same_page p q then pg_valid else pg_status s q)
  unfolding mark_page_valid set_line get_pg get_blk
  status-mark_page_valid s p q = status-set_page s p q pg_valid _ _

  pub status-mark_block_free :
      (s : Ssd Q) (p q : Ppa)
      → pg_status (mark_block_free p s) q
        ≡ (if same_blk p q && ltb q.pg s.sp.pgs_per_blk then pg_free else pg_status s q)
  unfolding mark_block_free set_blk get_blk get_pg
  status-mark_block_free s p q = ground arith

  pub status-advance :
      (s : Ssd Q) (p q : Ppa) (c : NandCmd)
      → pg_status (ssd_advance_status p c s).1 q ≡ pg_status s q
  unfolding ssd_advance_status set_lun get_lun get_blk get_pg
  status-advance s p q c = ground arith

  pub mark_page_valid-SameTables : (s : Ssd Q) (p : Ppa) → SameTables s (mark_page_valid p s)
  unfolding mark_page_valid set_line set_blk get_line
  mark_page_valid-SameTables s p = record {
    sp = refl;
    maptbl = refl;
    rmap = refl;
    wp = refl;
    free = refl;
    ids = λ i. ground arith;
  }

  pub advance_status-SameTables :
      (s : Ssd Q) (p : Ppa) (c : NandCmd) → SameTables s (ssd_advance_status p c s).1
  unfolding ssd_advance_status set_lun
  advance_status-SameTables s p c = record {
    sp = ground arith;
    maptbl = ground arith;
    rmap = ground arith;
    wp = ground arith;
    free = ground arith;
    ids = λ i. ground arith;
  }
