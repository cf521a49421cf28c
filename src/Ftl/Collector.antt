-- ===== src/Ftl/Collector.antt =====
-- do_gc with a line's worth of pages in reserve: it ends, and the mapping survives it.
use femu_on_virt.Base.{
  ℕ, ◌+◌, ◌%◌, ◌^◌, ◌≤◌, ◌<◌, ◌≡◌, refl, sym, ap, subst, Bool, true, false, [], ◌∷◌, length,
  length-append, Option, none, some, ok, ◌>>=◌, arith,
}
use femu_on_virt.Ftl.Types.{Ppa, zero_ppa, Ssd}
use femu_on_virt.Ftl.Victims.{Pqueue, IsPqueue}
use femu_on_virt.Ftl.Table.{set_line}
use femu_on_virt.Ftl.Pages.{mark_line_free}
use femu_on_virt.Ftl.Gc.{gc_line, do_gc, select_victim_line}
use femu_on_virt.Ftl.Mapping.{IsConsistent, IsApart, none_stale}
use femu_on_virt.Ftl.Collect.{IsCollecting}
use femu_on_virt.Ftl.Erase.{gc_chs-IsCollecting}
use femu_on_virt.Ftl.Space.{pages_left, mul_suc}
use femu_on_virt.Ftl.Reserve.{gc_chs-Takes, SameTables_left}
use femu_on_virt.Ftl.Reclaim.{
  Remains, IsReclaimed, IsChoice, outcome, select-IsChoice, selected-IsConsistent,
  do_gc-IsConsistent,
}

module _ {Q : Type 0} ⦃pq : Pqueue Q⦄ (laws : IsPqueue pq) where
  freed_left :
      (p : Ppa) (s : Ssd Q) → pages_left (mark_line_free p s) ≡ pages_left s + s.sp.pgs_per_line
  unfolding mark_line_free set_line
  freed_left p s =
      rw (length-append s.lm.free_line_list (p.blk ∷ []))
        (omega (arith, mul_suc s.sp.pgs_per_line (length s.lm.free_line_list)))

  gc_line_left :
      (v : ℕ) (s : Ssd Q)
      → IsConsistent s
      → IsApart v s
      → s.sp.pgs_per_line < pages_left s
      → (s' : Ssd Q) × (gc_line v s ≡ ok s') × (pages_left s ≤ pages_left s')
  unfolding gc_line
  gc_line_left v s k a m =
      let p = record zero_ppa { blk = (s.lm.lines v).id % 2 ^ 16 } in
      let on : p.blk ≡ v = omega (arith, k.room.ids v a.inside, a.inside) in
      let c : IsCollecting v none_stale s = record {
        tables = k.tables;
        room = k.room;
        apart = a;
      } in
      let size = k.room.layout.line_size in
      let r = gc_chs-Takes laws v s.sp.nchs 0 p s (omega arith) on c (omega arith) in
      let (ct, kt, free) =
        gc_chs-IsCollecting laws v s.sp.nchs 0 p s r.state (omega arith) on c r.result in
      (
        mark_line_free p r.state,
        ap (λ x. x >>= λ s1. ok (mark_line_free p s1)) r.result,
        omega (arith, r.left, freed_left p r.state, ap (λ x. x.pgs_per_line) kt.sp),
      )

  outcome_left :
      (s : Ssd Q) (x : Option ℕ × Ssd Q)
      → IsConsistent s
      → ((v : ℕ) → pq.peek s.lm.victim_line_pq ≡ some v → IsApart v s)
      → IsChoice laws s x
      → s.sp.pgs_per_line < pages_left s
      → (r : Bool) × (s' : Ssd Q) × (outcome laws x ≡ ok (r, s')) × (pages_left s ≤ pages_left s')
  unfolding IsChoice
  outcome_left s (none, t) k a c m =
      (false, t, refl, subst (λ y. pages_left s ≤ pages_left y) (sym c) (omega arith))
  outcome_left s (some v, t) k a c m =
      let (kt, at) = selected-IsConsistent laws s v t k (a v c.peek) c in
      let same = SameTables_left c.same in
      let line = ap (λ x. x.pgs_per_line) c.same.sp in
      let (u, e, left) = gc_line_left v t kt at (omega (arith, same, line)) in
      (true, u, ap (λ y. y >>= λ s2. ok (true, s2)) e, omega (arith, same, left))

  -- From a consistent device, when the line that the victim queue shows (if any) is neither the
  -- current nor a free line, and more pages are left than a line has, do_gc succeeds for both
  -- values of `force`. Afterwards at least as many pages are left as before, the tables are
  -- consistent, exactly the logical pages mapped before are mapped, and either nothing was done or
  -- the line that the queue showed is on the free list.
  pub do_gc_left :
      (force : Bool) (s : Ssd Q)
      → IsConsistent s
      → ((v : ℕ) → pq.peek s.lm.victim_line_pq ≡ some v → IsApart v s)
      → s.sp.pgs_per_line < pages_left s
      → (r : Bool) × (s' : Ssd Q) × (do_gc force s ≡ ok (r, s'))
        × (pages_left s ≤ pages_left s')
        × IsConsistent s'
        × Remains s s'
        × IsReclaimed laws r s s'
  unfolding do_gc
  do_gc_left force s k a m =
      let (r, u, e, left) =
        outcome_left s (select_victim_line force s) k a (select-IsChoice laws force s) m in
      let (c, remains, reclaimed) = do_gc-IsConsistent laws force r s u k a e in
      (r, u, e, left, c, remains, reclaimed)
