-- ===== src/Ftl/Move.antt =====
-- gc_write_page and clean_one_block: the valid pages of one block of the victim line move to the
-- write pointer, and their logical pages with them.
use femu_on_virt.Base.{
  ℕ, suc, ◌≡◌, refl, sym, ◌∙◌, ap, subst, Bool, true, false, ok, ok-injective, >>=-eq-ok, ◌==◌,
  ==_iff, Bool-cases, inl, inr,
}
use femu_on_virt.Ftl.Types.{Ppa, Ssd, pg_valid, nand_write}
use femu_on_virt.Ftl.Victims.{Pqueue, IsPqueue}
use femu_on_virt.Ftl.Table.{ppa2pgidx, mapped_ppa, get_rmap_ent}
use femu_on_virt.Ftl.Lines.{get_new_page, ssd_advance_write_pointer}
use femu_on_virt.Ftl.Gc.{gc_delay, move_mapping, gc_write_page}
use femu_on_virt.Ftl.Geometry.{IsPage}
use femu_on_virt.Ftl.Pointer.{wp_rank, new_page-mapped, new_page_at}
use femu_on_virt.Ftl.Cells.{pg_status, same_page, same_page_iff}
use femu_on_virt.Ftl.Mapping.{Owned, IsMapped, HasRoom, SameMap-IsMapped, none_skipped}
use femu_on_virt.Ftl.Assign.{Assigned, assign-Assigned, assigned-IsMapped, assigned-HasRoom}
use femu_on_virt.Ftl.Advance.{advance-HasRoom, advance-IsApart}
use femu_on_virt.Ftl.Collect.{
  IsCollecting, Collected, Collected-trans, quiet-IsCollecting, quiet-Collected, gc_delay-IsQuiet,
  set_gc_endtime-IsQuiet, stale_too, old-Owned, forget,
}

module _ {Q : Type 0} (b : ℕ) (s s' : Ssd Q) (stale : Ppa → Bool) (old : Ppa)
    (c : IsCollecting b stale s) (i : IsPage s.sp old) (on_b : old.blk ≡ b)
    (only_b : (q : Ppa) → stale q ≡ true → q.blk ≡ b) (fresh : stale old ≡ false)
    (v : pg_status s old ≡ pg_valid) where
  mine : Owned s (s.rmap (ppa2pgidx s.sp old)) old
  mine = old-Owned s stale old c.tables i fresh v

  off_line : (q : Ppa) → q.blk ≡ b → same_page (get_new_page s) q ≡ false
  off_line q e = elim (Bool-cases (same_page (get_new_page s) q)) [
    | inl f ↦ absurd (
        c.apart.not_current (
          sym e
          ∙ sym ((same_page_iff (get_new_page s) q).0 f).blk
          ∙ (new_page_at s c.room.layout c.room.opened).3))
    | inr f ↦ f
  ]

  new_fresh : stale_too s stale old c.tables i fresh v (get_new_page s) ≡ false
  new_fresh = elim (Bool-cases (stale (get_new_page s))) [
    | inl e ↦ absurd (
        c.apart.not_current
          (sym (only_b (get_new_page s) e) ∙ (new_page_at s c.room.layout c.room.opened).3))
    | inr e ↦ elim (Bool-cases (same_page old (get_new_page s))) [
      | inl f ↦ absurd (
          c.apart.not_current (
            sym on_b
            ∙ ((same_page_iff old (get_new_page s)).0 f).blk
            ∙ (new_page_at s c.room.layout c.room.opened).3))
      | inr f ↦ rw (e, f)
    ]
  ]

  pub moved-Assigned :
      ⦃pq : Pqueue Q⦄ → Assigned (s.rmap (ppa2pgidx s.sp old)) s (move_mapping old s)
  unfolding move_mapping get_rmap_ent
  moved-Assigned = assign-Assigned (s.rmap (ppa2pgidx s.sp old)) s

  moved-Collected : (t : Ssd Q) → Assigned (s.rmap (ppa2pgidx s.sp old)) s t → Collected b s t
  moved-Collected t a = record {
    sp = a.sp;
    mapped = λ l. elim (Bool-cases (s.rmap (ppa2pgidx s.sp old) == l)) [
      | inl e ↦
          rw (a.maptbl l, e)
            (new_page-mapped s
              ∙ sym (subst (λ k. mapped_ppa (s.maptbl k) ≡ true) ((==_iff _ _).0 e) mine.mapped))
      | inr e ↦ rw (a.maptbl l, e)
    ];
    free = λ q e f. rw (a.status q, off_line q e) f;
  }

  module _ ⦃pq : Pqueue Q⦄ (laws : IsPqueue pq) where
    -- The tables and the page's status, before the pointer moves.
    pub moved :
        IsMapped (move_mapping old s) none_skipped (stale_too s stale old c.tables i fresh v)
        × HasRoom (move_mapping old s) (suc (wp_rank (move_mapping old s)))
    moved =
        let a = moved-Assigned in
        let m = forget s stale old c.tables i fresh v in
        let st = stale_too s stale old c.tables i fresh v in
        (
          assigned-IsMapped _ s _ st m c.room mine.inside a new_fresh,
          subst (λ n. HasRoom (move_mapping old s) (suc n)) (rw (a.sp, a.wp) refl)
              (assigned-HasRoom _ s _ st m c.room mine.inside a new_fresh),
        )

    pub gc_write_page-IsCollecting :
        gc_write_page old s ≡ ok s'
        → IsCollecting b (stale_too s stale old c.tables i fresh v) s' × Collected b s s'
    unfolding gc_write_page
    gc_write_page-IsCollecting e =
        let t = move_mapping old s in
        let st = stale_too s stale old c.tables i fresh v in
        let (u, advanced, rest) = >>=-eq-ok (ssd_advance_write_pointer t) _ e in
        let a = moved-Assigned in
        let (h, m) = advance-HasRoom laws t u moved.1 advanced in
        let apart =
          advance-IsApart laws t u moved.1 b
            (record {
              inside = c.apart.inside;
              not_current = rw a.wp c.apart.not_current;
              not_free = rw a.free c.apart.not_free;
            })
            advanced in
        let p = get_new_page s in
        let q1 = gc_delay-IsQuiet b nand_write p u in
        let q2 = set_gc_endtime-IsQuiet b p (gc_delay nand_write p u) in
        let there : IsCollecting b st u = record {
          tables = SameMap-IsMapped m _ _ moved.0;
          room = h;
          apart = apart;
        } in
        let step : Collected b t u = record {
          sp = m.sp;
          mapped = λ l. ap (λ (f : ℕ → Ppa). mapped_ppa (f l)) m.maptbl;
          free = λ q f g. m.status q ∙ g;
        } in
        subst (λ x. IsCollecting b st x × Collected b s x) (ok-injective rest)
          (
            quiet-IsCollecting b st _ _ q2 (quiet-IsCollecting b st _ _ q1 there),
            Collected-trans b
                (Collected-trans b (Collected-trans b (moved-Collected t a) step)
                  (quiet-Collected b _ _ q1))
                (quiet-Collected b _ _ q2),
          )
