-- ===== src/Ftl/Assign.antt =====
-- Giving the page under the write pointer to a logical page: the step that ssd_write and
-- gc_write_page share.
use femu_on_virt.Base.{
  ℕ, suc, ◌≤◌, ◌<◌, ◌≡◌, ◌≢◌, refl, sym, ◌∙◌, ap, subst, Bool, true, false, arith, ◌==◌, ==_iff,
  ==-false, ==_refl, Bool-cases, inl, inr, if◌then◌else◌, contains,
}
use femu_on_virt.Ftl.Types.{Ppa, SsdParams, Ssd, pg_free, pg_valid}
use femu_on_virt.Ftl.Table.{ppa2pgidx, mapped_ppa, get_pg, get_blk, set_maptbl_ent, set_rmap_ent}
use femu_on_virt.Ftl.Lines.{get_new_page}
use femu_on_virt.Ftl.Pages.{mark_page_valid}
use femu_on_virt.Ftl.Geometry.{IsPage, SamePage, pgidx-injective, pgidx-SamePage}
use femu_on_virt.Ftl.Pointer.{
  rank, wp_rank, new_page-IsPage, new_page-mapped, new_page-sec, new_page_at,
}
use femu_on_virt.Ftl.Cells.{
  pg_status, same_page, same_page_iff, status-mark_page_valid, mark_page_valid-SameTables,
}
use femu_on_virt.Ftl.Mapping.{Entry, Owned, IsMapped, HasRoom, none_skipped}

module _ {Q : Type 0} where
  -- The updates of the tables and of the page's status.
  abbrev pub assign : ℕ → Ssd Q → Ssd Q
  assign lpn s =
      let p = get_new_page s in mark_page_valid p (set_rmap_ent (set_maptbl_ent s lpn p) lpn p)

  -- What `assign` does to each part of the state.
  pub record Assigned (lpn : ℕ) (s s' : Ssd Q) : Type 0 where
    pub sp : s'.sp ≡ s.sp
    pub wp : s'.wp ≡ s.wp
    pub free : s'.lm.free_line_list ≡ s.lm.free_line_list
    pub ids : (i : ℕ) → (s'.lm.lines i).id ≡ (s.lm.lines i).id
    pub maptbl : (l : ℕ) → s'.maptbl l ≡ (if lpn == l then get_new_page s else s.maptbl l)
    pub rmap :
        (x : ℕ) → s'.rmap x ≡ (if ppa2pgidx s.sp (get_new_page s) == x then lpn else s.rmap x)
    pub status :
        (q : Ppa)
        → pg_status s' q ≡ (if same_page (get_new_page s) q then pg_valid else pg_status s q)

  pub assign-Assigned : (lpn : ℕ) (s : Ssd Q) → Assigned lpn s (assign lpn s)
  unfolding set_rmap_ent set_maptbl_ent get_pg get_blk
  assign-Assigned lpn s =
      let p = get_new_page s in
      let t = set_rmap_ent (set_maptbl_ent s lpn p) lpn p in
      let e = mark_page_valid-SameTables t p in
      record {
        sp = e.sp;
        wp = e.wp;
        free = e.free;
        ids = e.ids;
        maptbl = λ l. ap (λ (f : ℕ → Ppa). f l) e.maptbl;
        rmap = λ x. ap (λ (f : ℕ → ℕ). f x) e.rmap;
        status = λ q. status-mark_page_valid t p q;
      }

  module _ (lpn : ℕ) (s s' : Ssd Q) (stale : Ppa → Bool) (m : IsMapped s (λ l. l == lpn) stale)
      (h : HasRoom s (wp_rank s)) (inside : lpn < s.sp.tt_pgs) (a : Assigned lpn s s')
      (fresh : stale (get_new_page s) ≡ false) where
    new : Ppa
    new = get_new_page s

    new-IsPage : IsPage s.sp new
    unfolding new
    new-IsPage = new_page-IsPage s h.layout h.opened

    unused : (p : Ppa) → IsPage s.sp p → SamePage new p → pg_status s p ≡ pg_free
    unfolding new
    unused p i e =
        let at = new_page_at s h.layout h.opened in h.room p i (omega arith) (grind (arith, at))

    -- A page that is not free is not the new one, and keeps its owner.
    other_page : (p : Ppa) → IsPage s.sp p → pg_status s p ≡ pg_valid → same_page new p ≡ false
    other_page p i v = elim (Bool-cases (same_page new p)) [
      | inl e ↦ absurd (omega (arith, unused p i ((same_page_iff new p).0 e), v))
      | inr e ↦ e
    ]

    other_idx :
        (p : Ppa)
        → IsPage s.sp p
        → same_page new p ≡ false
        → (ppa2pgidx s.sp new == ppa2pgidx s.sp p) ≡ false
    other_idx p i ne = ==-false _ _ (λ (e : ppa2pgidx s.sp new ≡ ppa2pgidx s.sp p).
        cc (ne, (same_page_iff new p).1 (pgidx-injective h.layout new p new-IsPage i e)))

    other_rmap :
        (p : Ppa)
        → IsPage s.sp p
        → same_page new p ≡ false
        → s'.rmap (ppa2pgidx s.sp p) ≡ s.rmap (ppa2pgidx s.sp p)
    unfolding new
    other_rmap p i ne = rw (a.rmap (ppa2pgidx s.sp p), other_idx p i ne)

    Entry-old :
        (l : ℕ)
        → l ≢ lpn
        → l < s.sp.tt_pgs
        → mapped_ppa (s.maptbl l) ≡ true
        → Entry s' l (s.maptbl l)
    unfolding new
    Entry-old l ne i e =
        let old = (m.entry l i (==-false _ _ ne) e).0 in
        let ne' = other_page (s.maptbl l) old.page old.status in
        record {
          page = rw a.sp old.page;
          owner = rw (a.sp, other_rmap _ old.page ne') old.owner;
          status = rw (a.status (s.maptbl l), ne') old.status;
          sec = old.sec;
        }

    Entry-new : Entry s' lpn new
    unfolding new
    Entry-new = record {
      page = rw a.sp new-IsPage;
      owner = rw (a.sp, a.rmap (ppa2pgidx s.sp new), ==_refl (ppa2pgidx s.sp new));
      status = rw (a.status new, (same_page_iff new new).1 (omega arith));
      sec = new_page-sec s;
    }

    pub assigned-Entry :
        (l : ℕ)
        → l < s.sp.tt_pgs
        → mapped_ppa (s'.maptbl l) ≡ true
        → Entry s' l (s'.maptbl l) × (stale (s'.maptbl l) ≡ false)
    unfolding new
    assigned-Entry l i e = elim (Bool-cases (lpn == l)) [
      | inl f ↦
          rw (a.maptbl l, f)
            (subst (λ k. Entry s' k new × (stale new ≡ false)) ((==_iff _ _).0 f)
              (Entry-new, fresh))
      | inr f ↦
          let ne : l ≢ lpn = λ g. cc (f, ==_refl l, g) in
          let e' : mapped_ppa (s.maptbl l) ≡ true = rw (a.maptbl l, f) at e in
          rw (a.maptbl l, f) (Entry-old l ne i e', (m.entry l i (==-false _ _ ne) e').1)
    ]

    Owned-old :
        (p : Ppa)
        → IsPage s.sp p
        → same_page new p ≡ false
        → stale p ≡ false
        → pg_status s p ≡ pg_valid
        → Owned s' (s.rmap (ppa2pgidx s.sp p)) p
    Owned-old p i ne fresh v =
        let old = m.owned p i fresh v in
        let far : (lpn == s.rmap (ppa2pgidx s.sp p)) ≡ false = ground (arith, old.1) in
        record {
          inside = rw a.sp old.0.inside;
          mapped = rw (a.maptbl (s.rmap (ppa2pgidx s.sp p)), far) old.0.mapped;
          same = rw (a.maptbl (s.rmap (ppa2pgidx s.sp p)), far) old.0.same;
        }

    Owned-new : (p : Ppa) → SamePage new p → Owned s' lpn p
    unfolding new
    Owned-new p e = record {
      inside = rw a.sp inside;
      mapped = rw (a.maptbl lpn, ==_refl lpn) (new_page-mapped s);
      same = rw (a.maptbl lpn, ==_refl lpn) e;
    }

    assigned_rmap : (p : Ppa) → same_page new p ≡ true → s'.rmap (ppa2pgidx s.sp p) ≡ lpn
    unfolding new
    assigned_rmap p e = rw (
      a.rmap (ppa2pgidx s.sp p),
      (==_iff _ _).1 (pgidx-SamePage s.sp new p ((same_page_iff new p).0 e)),
    )

    pub assigned-Owned :
        (p : Ppa)
        → IsPage s'.sp p
        → stale p ≡ false
        → pg_status s' p ≡ pg_valid
        → Owned s' (s'.rmap (ppa2pgidx s'.sp p)) p
    unfolding new
    assigned-Owned p i fresh v =
        let i' : IsPage s.sp p = rw a.sp at i in
        let idx = ap (λ (x : SsdParams). s'.rmap (ppa2pgidx x p)) a.sp in
        elim (Bool-cases (same_page new p)) [
          | inl e ↦
              subst (λ k. Owned s' k p) (sym (idx ∙ assigned_rmap p e))
                (Owned-new p ((same_page_iff new p).0 e))
          | inr e ↦
              subst (λ k. Owned s' k p) (sym (idx ∙ other_rmap p i' e))
                (Owned-old p i' e fresh (rw (a.status p, e) at v))
        ]

    pub assigned-IsMapped : IsMapped s' none_skipped stale
    assigned-IsMapped = record {
      entry = λ l i _ e. assigned-Entry l (rw a.sp at i) e;
      owned = λ p i f v. (assigned-Owned p i f v, refl);
    }

    later_page : (p : Ppa) → suc (wp_rank s) ≤ rank s.sp p.ch p.lun p.pg → same_page new p ≡ false
    unfolding new
    later_page p r = elim (Bool-cases (same_page new p)) [
      | inl e ↦ absurd (grind (arith, (same_page_iff new p).0 e, new_page_at s h.layout h.opened))
      | inr e ↦ e
    ]

    spare_page : (p : Ppa) → contains p.blk s.lm.free_line_list ≡ true → same_page new p ≡ false
    unfolding new
    spare_page p c = ground (arith, h.spare p.blk, new_page_at s h.layout h.opened)

    pub assigned-HasRoom : HasRoom s' (suc (wp_rank s))
    unfolding new
    assigned-HasRoom = record {
      layout = rw a.sp h.layout;
      opened = rw (a.sp, a.wp) h.opened;
      curline = rw a.wp h.curline;
      ids = λ i k. rw (a.ids i) (h.ids i k);
      room = λ p i b r.
          let r' : suc (wp_rank s) ≤ rank s.sp p.ch p.lun p.pg = rw a.sp at r in
          rw (a.status p, later_page p r') (h.room p (rw a.sp at i) (rw a.wp at b) (omega arith));
      spare = rw (a.free, a.wp) h.spare;
      spare_free = λ p i c.
          rw (a.status p, spare_page p (rw a.free at c))
            (h.spare_free p (rw a.sp at i) (rw a.free at c));
      distinct = rw a.free h.distinct;
    }
