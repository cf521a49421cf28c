-- ===== src/Ftl/Invalidate.antt =====
-- mark_page_invalid, and what ssd_write does with the page that a logical page had.
use femu_on_virt.Base.{
  ℕ, ◌≡◌, refl, ◌∙◌, ap, arith, ◌==◌, sext64, dec32, inc32, Bool-cases, inl, inr, if◌then◌else◌,
}
use femu_on_virt.Ftl.Types.{Ppa, SsdChannel, Ssd, pg_invalid}
use femu_on_virt.Ftl.Victims.{Pqueue, IsPqueue}
use femu_on_virt.Ftl.Table.{get_blk, get_pg, get_line, set_blk, set_line}
use femu_on_virt.Ftl.Pages.{set_page, drop_valid_count, full_to_victim, mark_page_invalid}
use femu_on_virt.Ftl.Cells.{pg_status, same_page, SameTables, status-set_page}

module _ {Q : Type 0} ⦃pq : Pqueue Q⦄ (laws : IsPqueue pq) where
  drop_valid_count-SameTables : (i : ℕ) (s : Ssd Q) → SameTables s (drop_valid_count i s)
  unfolding drop_valid_count set_line
  drop_valid_count-SameTables i s = record {
    sp = ground arith;
    maptbl = ground arith;
    rmap = ground arith;
    wp = ground arith;
    free = ground arith;
    ids = λ j. ground (
      arith,
      laws.change_id s.lm.victim_line_pq s.lm.lines (sext64 (dec32 (s.lm.lines i).vpc)) i j,
    );
  }

  full_to_victim-SameTables : (i : ℕ) (s : Ssd Q) → SameTables s (full_to_victim i s)
  unfolding full_to_victim
  full_to_victim-SameTables i s = record {
    sp = refl;
    maptbl = refl;
    rmap = refl;
    wp = refl;
    free = refl;
    ids = (laws.insert_only s.lm.victim_line_pq s.lm.lines i).id;
  }

  abbrev trans : {s s' s'' : Ssd Q} → SameTables s s' → SameTables s' s'' → SameTables s s''
  trans a b = record {
    sp = b.sp ∙ a.sp;
    maptbl = b.maptbl ∙ a.maptbl;
    rmap = b.rmap ∙ a.rmap;
    wp = b.wp ∙ a.wp;
    free = b.free ∙ a.free;
    ids = λ i. b.ids i ∙ a.ids i;
  }

  -- The state before the line's counts are touched in the queue.
  abbrev counted : Ppa → Ssd Q → Ssd Q
  counted p s =
      let blk = get_blk s p in
      let s1 = set_page p pg_invalid (inc32 blk.ipc) (dec32 blk.vpc) s in
      let line = get_line s1 p in set_line s1 p.blk (record line { ipc = inc32 line.ipc })

  counted-SameTables : (p : Ppa) (s : Ssd Q) → SameTables s (counted p s)
  unfolding set_page set_blk set_line get_line
  counted-SameTables p s = record {
    sp = refl;
    maptbl = refl;
    rmap = refl;
    wp = refl;
    free = refl;
    ids = λ i. ground arith;
  }

  pub mark_page_invalid-SameTables : (p : Ppa) (s : Ssd Q) → SameTables s (mark_page_invalid p s)
  unfolding mark_page_invalid
  mark_page_invalid-SameTables p s =
      let a = trans (counted-SameTables p s) (drop_valid_count-SameTables p.blk (counted p s)) in
      elim (Bool-cases (
        (get_line (set_page p pg_invalid (inc32 (get_blk s p).ipc) (dec32 (get_blk s p).vpc) s)
          p).vpc
        == s.sp.pgs_per_line)) [
          | inl e ↦ rw e (trans a (full_to_victim-SameTables p.blk _))
          | inr e ↦ rw e a
        ]

  -- The array is the one that `set_page` leaves.
  mark_page_invalid-ch :
      (p : Ppa) (s : Ssd Q)
      → (mark_page_invalid p s).ch
        ≡ (set_page p pg_invalid (inc32 (get_blk s p).ipc) (dec32 (get_blk s p).vpc) s).ch
  unfolding mark_page_invalid full_to_victim drop_valid_count set_line
  mark_page_invalid-ch p s = ground arith

  pub status-mark_page_invalid :
      (p q : Ppa) (s : Ssd Q)
      → pg_status (mark_page_invalid p s) q ≡ (if same_page p q then pg_invalid else pg_status s q)
  unfolding get_pg get_blk
  status-mark_page_invalid p q s =
      ap (λ (c : ℕ → SsdChannel). (((((c q.ch).lun q.lun).pl q.pl).blk q.blk).pg q.pg).status)
        (mark_page_invalid-ch p s)
      ∙ status-set_page s p q pg_invalid _ _
