-- ===== src/Ftl/Drop.antt =====
-- What ssd_write does with the page that a logical page had.
use femu_on_virt.Base.{
  ℕ, ◌<◌, ◌≡◌, refl, sym, ◌∙◌, ap, subst, true, false, ◌&&◌, arith, ◌==◌, ==-false, ==_refl,
  Bool-cases, inl, inr, if◌then◌else◌,
}
use femu_on_virt.Ftl.Types.{Ppa, SsdParams, Ssd, invalid_lpn, pg_free, pg_invalid, pg_valid}
use femu_on_virt.Ftl.Victims.{Pqueue, IsPqueue}
use femu_on_virt.Ftl.Table.{ppa2pgidx, mapped_ppa, get_blk, get_pg, set_rmap_ent, get_maptbl_ent}
use femu_on_virt.Ftl.Io.{drop_old_page}
use femu_on_virt.Ftl.Geometry.{IsPage, pgidx-injective, pgidx-SamePage}
use femu_on_virt.Ftl.Pointer.{wp_rank}
use femu_on_virt.Ftl.Cells.{pg_status, same_page, same_page_iff, status-SamePage}
use femu_on_virt.Ftl.Mapping.{Entry, Owned, IsMapped, HasRoom, none_skipped, none_stale}
use femu_on_virt.Ftl.Invalidate.{mark_page_invalid-SameTables, status-mark_page_invalid}

module _ {Q : Type 0} where
  -- What `drop_old_page` does to each part of the state.
  pub record Dropped (lpn : ℕ) (s s' : Ssd Q) : Type 0 where
    pub sp : s'.sp ≡ s.sp
    pub wp : s'.wp ≡ s.wp
    pub free : s'.lm.free_line_list ≡ s.lm.free_line_list
    pub ids : (i : ℕ) → (s'.lm.lines i).id ≡ (s.lm.lines i).id
    pub maptbl : s'.maptbl ≡ s.maptbl
    pub rmap :
        (x : ℕ)
        → s'.rmap x ≡ (
            if mapped_ppa (s.maptbl lpn) && (ppa2pgidx s.sp (s.maptbl lpn) == x)
            then invalid_lpn
            else s.rmap x)
    pub status :
        (q : Ppa)
        → pg_status s' q ≡ (
            if mapped_ppa (s.maptbl lpn) && same_page (s.maptbl lpn) q
            then pg_invalid
            else pg_status s q)

module _ {Q : Type 0} ⦃pq : Pqueue Q⦄ (laws : IsPqueue pq) where
  pub drop_old_page-Dropped : (lpn : ℕ) (s : Ssd Q) → Dropped lpn s (drop_old_page lpn s)
  unfolding drop_old_page get_maptbl_ent set_rmap_ent get_pg get_blk
  drop_old_page-Dropped lpn s =
      let p = s.maptbl lpn in
      let e = mark_page_invalid-SameTables laws p s in
      elim (Bool-cases (mapped_ppa p)) [
        | inl m ↦ rw m (record {
          sp = e.sp;
          wp = e.wp;
          free = e.free;
          ids = e.ids;
          maptbl = e.maptbl;
          rmap = λ x. rw (m, e.sp, e.rmap);
          status = λ q. rw m (status-mark_page_invalid laws p q s);
        })
        | inr m ↦ rw m (record {
          sp = refl;
          wp = refl;
          free = refl;
          ids = λ i. refl;
          maptbl = refl;
          rmap = λ x. rw m;
          status = λ q. rw m;
        })
      ]

module _ {Q : Type 0} (lpn : ℕ) (s s' : Ssd Q) (m : IsMapped s none_skipped none_stale)
    (h : HasRoom s (wp_rank s)) (inside : lpn < s.sp.tt_pgs) (d : Dropped lpn s s') where
  old : Ppa
  old = s.maptbl lpn

  -- Another page than the one that `lpn` had keeps its status and its owner.
  kept :
      (p : Ppa)
      → IsPage s.sp p
      → (mapped_ppa old && same_page old p) ≡ false
      → (pg_status s' p ≡ pg_status s p) × (s'.rmap (ppa2pgidx s.sp p) ≡ s.rmap (ppa2pgidx s.sp p))
  unfolding old
  kept p i ne =
      let apart : (mapped_ppa old && (ppa2pgidx s.sp old == ppa2pgidx s.sp p)) ≡ false =
        elim (Bool-cases (mapped_ppa old)) [
          | inl e ↦ rw e (
              ==-false _ _ (λ (f : ppa2pgidx s.sp old ≡ ppa2pgidx s.sp p). cc (
                ne,
                e,
                (same_page_iff old p).1
                    (pgidx-injective h.layout old p ((m.entry lpn inside refl e).0).page i f),
              )))
          | inr e ↦ rw e
        ] in
      (rw (d.status p, ne), rw (d.rmap (ppa2pgidx s.sp p), apart))

  -- Two logical pages with one physical page are one.
  same_owner :
      (l : ℕ)
      → Entry s l (s.maptbl l)
      → (mapped_ppa old && same_page old (s.maptbl l)) ≡ true
      → l ≡ lpn
  unfolding old
  same_owner l was e =
      let both : (mapped_ppa old ≡ true) × (same_page old (s.maptbl l) ≡ true) = ground arith in
      let mine = (m.entry lpn inside refl both.0).0 in
      sym was.owner
      ∙ ap s.rmap (sym (pgidx-SamePage s.sp old (s.maptbl l) ((same_page_iff _ _).0 both.1)))
      ∙ mine.owner

  dropped-Entry :
      (l : ℕ)
      → l < s.sp.tt_pgs
      → (l == lpn) ≡ false
      → mapped_ppa (s.maptbl l) ≡ true
      → Entry s' l (s.maptbl l)
  unfolding old
  dropped-Entry l i ne e =
      let was = (m.entry l i refl e).0 in
      let apart : (mapped_ppa old && same_page old (s.maptbl l)) ≡ false =
        elim (Bool-cases (mapped_ppa old && same_page old (s.maptbl l))) [
          | inl f ↦ absurd (cc (ne, ==_refl l, same_owner l was f))
          | inr f ↦ f
        ] in
      let k = kept (s.maptbl l) was.page apart in
      record {
        page = rw d.sp was.page;
        owner = rw d.sp (k.1 ∙ was.owner);
        status = k.0 ∙ was.status;
        sec = was.sec;
      }

  dropped-Owned :
      (p : Ppa)
      → IsPage s.sp p
      → pg_status s' p ≡ pg_valid
      → Owned s' (s'.rmap (ppa2pgidx s.sp p)) p × ((s'.rmap (ppa2pgidx s.sp p) == lpn) ≡ false)
  unfolding old
  dropped-Owned p i v =
      let ne : (mapped_ppa old && same_page old p) ≡ false = ground (arith, d.status p) in
      let k = kept p i ne in
      let was = (m.owned p i refl (sym k.0 ∙ v)).0 in
      let other : (s.rmap (ppa2pgidx s.sp p) == lpn) ≡ false =
        ==-false _ _ (λ (e : s.rmap (ppa2pgidx s.sp p) ≡ lpn).
          let mine = subst (λ k. Owned s k p) e was in
          cc (ne, mine.mapped, (same_page_iff old p).1 mine.same)) in
      rw k.1 (
        record {
          inside = rw d.sp was.inside;
          mapped = rw d.maptbl was.mapped;
          same = rw d.maptbl was.same;
        },
        other,
      )

  kept_free : (p : Ppa) → pg_status s p ≡ pg_free → pg_status s' p ≡ pg_free
  unfolding old
  kept_free p f = elim (Bool-cases (mapped_ppa old && same_page old p)) [
    | inl e ↦
        let both : (mapped_ppa old ≡ true) × (same_page old p ≡ true) = ground arith in
        absurd (
          omega (
            arith,
            ((m.entry lpn inside refl both.0).0).status,
            status-SamePage s old p ((same_page_iff old p).0 both.1),
            f,
          ))
    | inr e ↦ rw (d.status p, e) f
  ]

  pub dropped-IsMapped : IsMapped s' (λ l. l == lpn) none_stale
  dropped-IsMapped = record {
    entry = λ l i ne e. (
      subst (λ (f : ℕ → Ppa). Entry s' l (f l)) (sym d.maptbl)
          (dropped-Entry l (rw d.sp at i) ne (rw d.maptbl at e)),
      refl,
    );
    owned = λ p i _ v.
        subst
          (λ (x : SsdParams).
            Owned s' (s'.rmap (ppa2pgidx x p)) p × ((s'.rmap (ppa2pgidx x p) == lpn) ≡ false))
          (sym d.sp) (dropped-Owned p (rw d.sp at i) v);
  }

  pub dropped-HasRoom : HasRoom s' (wp_rank s')
  dropped-HasRoom = record {
    layout = rw d.sp h.layout;
    opened = rw (d.sp, d.wp) h.opened;
    curline = rw d.wp h.curline;
    ids = λ i k. rw (d.ids i) (h.ids i k);
    room = λ p i b r. kept_free p (h.room p (rw d.sp at i) (rw d.wp at b) (rw (d.sp, d.wp) at r));
    spare = rw (d.free, d.wp) h.spare;
    spare_free = λ p i c. kept_free p (h.spare_free p (rw d.sp at i) (rw d.free at c));
    distinct = rw d.free h.distinct;
  }
