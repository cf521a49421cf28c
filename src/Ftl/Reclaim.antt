-- ===== src/Ftl/Reclaim.antt =====
-- do_gc: a victim line goes back to the free list, and the logical pages keep their mapping.
use femu_on_virt.Base.{
  ℕ, ◌%◌, ◌/◌, ◌^◌, ◌≡◌, dec32, refl, sym, ◌∙◌, ap, subst, Bool, true, false, not, ◌&&◌, Option,
  none, some, List, [], ◌∷◌, ◌++◌, Run, ok, ◌>>=◌, ok-injective, >>=-eq-ok, arith, Bool-cases, inl,
  inr, if◌then◌else◌, slt32, contains, Distinct, contains-append,
}
use femu_on_virt.Ftl.Types.{Ppa, zero_ppa, Ssd}
use femu_on_virt.Ftl.Victims.{Pqueue, IsPqueue}
use femu_on_virt.Ftl.Table.{mapped_ppa, get_pg, get_blk, get_line, set_line}
use femu_on_virt.Ftl.Pages.{mark_line_free}
use femu_on_virt.Ftl.Gc.{select_victim_line, gc_chs, gc_line, do_gc}
use femu_on_virt.Ftl.Cells.{SameTables}
use femu_on_virt.Ftl.Mapping.{HasRoom, IsConsistent, IsApart, SameMap, SameMap-IsMapped, none_stale}
use femu_on_virt.Ftl.Collect.{IsCollecting}
use femu_on_virt.Ftl.Erase.{AllFree, gc_chs-IsCollecting}
use femu_on_virt.Ftl.Write.{SameTables-HasRoom}

Distinct-append :
    (b : ℕ) (xs : List ℕ) → contains b xs ≡ false → Distinct xs → Distinct (xs ++ b ∷ [])
Distinct-append b [] c d = (refl, tt)
Distinct-append b (x ∷ xs) c (d, ds) =
    (ground (arith, contains-append x xs (b ∷ [])), Distinct-append b xs (ground arith) ds)

module _ {Q : Type 0} (b : ℕ) (p : Ppa) (s : Ssd Q) (on : p.blk ≡ b)
    (c : IsCollecting b none_stale s) (f : AllFree b 0 s) where
  freed-SameMap : SameMap s (mark_line_free p s)
  unfolding mark_line_free set_line get_pg get_blk
  freed-SameMap = record { sp = refl; maptbl = refl; rmap = refl; status = λ q. refl }

  freed-IsConsistent : IsConsistent (mark_line_free p s)
  unfolding mark_line_free set_line get_line get_pg get_blk
  freed-IsConsistent =
      let h = c.room in
      record {
        tables = SameMap-IsMapped freed-SameMap _ _ c.tables;
        room = record {
          layout = h.layout;
          opened = h.opened;
          curline = h.curline;
          ids = λ i k. ground (arith, h.ids i);
          room = h.room;
          spare = λ i e. ground (
            arith,
            h.spare i,
            contains-append i s.lm.free_line_list (p.blk ∷ []),
            c.apart.not_current,
            c.apart.inside,
          );
          spare_free = λ q i e. elim (Bool-cases (contains q.blk s.lm.free_line_list)) [
            | inl g ↦ h.spare_free q i g
            | inr g ↦
                f q i (ground (arith, contains-append q.blk s.lm.free_line_list (p.blk ∷ [])))
                  (omega arith)
          ];
          distinct = Distinct-append p.blk s.lm.free_line_list (rw on c.apart.not_free) h.distinct;
        };
      }

  freed-contains : contains b (mark_line_free p s).lm.free_line_list ≡ true
  unfolding mark_line_free set_line
  freed-contains = ground (arith, contains-append b s.lm.free_line_list (p.blk ∷ []))

-- The logical pages of `s` are mapped in `s'`, and no others.
pub record Remains {Q : Type 0} (s s' : Ssd Q) : Type 0 where
  pub sp : s'.sp ≡ s.sp
  pub mapped : (l : ℕ) → mapped_ppa (s'.maptbl l) ≡ mapped_ppa (s.maptbl l)

module _ {Q : Type 0} ⦃pq : Pqueue Q⦄ (laws : IsPqueue pq) where
  gc_line-IsConsistent :
      (v : ℕ) (s s' : Ssd Q)
      → IsConsistent s
      → IsApart v s
      → gc_line v s ≡ ok s'
      → IsConsistent s' × Remains s s' × (contains v s'.lm.free_line_list ≡ true)
  unfolding gc_line
  gc_line-IsConsistent v s s' k a e =
      let p = record zero_ppa { blk = (s.lm.lines v).id % 2 ^ 16 } in
      let on : p.blk ≡ v = omega (arith, k.room.ids v a.inside, a.inside) in
      let (t, erased, rest) = >>=-eq-ok (gc_chs s.sp.nchs 0 p s) _ e in
      let (ct, kt, free) =
        gc_chs-IsCollecting laws v s.sp.nchs 0 p s t (omega arith) on
          (record { tables = k.tables; room = k.room; apart = a }) erased in
      let m = freed-SameMap v p t on ct free in
      subst (λ x. IsConsistent x × Remains s x × (contains v x.lm.free_line_list ≡ true))
        (ok-injective rest)
        (
          freed-IsConsistent v p t on ct free,
          record {
            sp = m.sp ∙ kt.sp;
            mapped = λ l. ap (λ (t : ℕ → Ppa). mapped_ppa (t l)) m.maptbl ∙ kt.mapped l;
          },
          freed-contains v p t on ct free,
        )

  -- The choice of a victim takes it from the queue, and leaves the array and the tables.
  pub record IsSelected (v : ℕ) (s s1 : Ssd Q) : Type 0 where
    pub peek : pq.peek s.lm.victim_line_pq ≡ some v
    pub same : SameTables s s1
    pub map : SameMap s s1

  unfoldable pub IsChoice : Ssd Q → Option ℕ × Ssd Q → Type 0
  IsChoice s (none, s1) = s1 ≡ s
  IsChoice s (some v, s1) = IsSelected v s s1

  IsChoice-if :
      (c : Bool) (s : Ssd Q) (x y : Option ℕ × Ssd Q)
      → IsChoice s x
      → IsChoice s y
      → IsChoice s (if c then x else y)
  IsChoice-if true s x y a b = a
  IsChoice-if false s x y a b = b

  IsChoice-elim :
      (s : Ssd Q) (o : Option ℕ) (x : Option ℕ × Ssd Q) (f : ℕ → Option ℕ × Ssd Q)
      → IsChoice s x
      → ((v : ℕ) → o ≡ some v → IsChoice s (f v))
      → IsChoice s (elim o [ none ↦ x | some v ↦ f v ])
  IsChoice-elim s none x f a b = a
  IsChoice-elim s (some v) x f a b = b v refl

  -- The state behind the guards of select_victim_line.
  abbrev taken : ℕ → Ssd Q → Ssd Q
  taken v s =
      let (q, ls) = pq.pop s.lm.victim_line_pq s.lm.lines in
      let s1 = record s { lm = record (s.lm) { lines = ls; victim_line_pq = q } } in
      let s2 = set_line s1 v (record (ls v) { pos = 0 }) in
      record s2 { lm = record (s2.lm) { victim_line_cnt = dec32 s2.lm.victim_line_cnt } }

  taken-IsSelected :
      (v : ℕ) (s : Ssd Q) → pq.peek s.lm.victim_line_pq ≡ some v → IsSelected v s (taken v s)
  unfolding set_line get_pg get_blk
  taken-IsSelected v s e = record {
    peek = e;
    same = record {
      sp = refl;
      maptbl = refl;
      rmap = refl;
      wp = refl;
      free = refl;
      ids = λ i.
          let ids = (laws.pop_only s.lm.victim_line_pq s.lm.lines).id in
          ground (arith, ids v, ids i);
    };
    map = record { sp = refl; maptbl = refl; rmap = refl; status = λ q. refl };
  }

  pub select-IsChoice : (force : Bool) (s : Ssd Q) → IsChoice s (select_victim_line force s)
  unfolding IsChoice select_victim_line
  select-IsChoice force s =
      IsChoice-elim s (pq.peek s.lm.victim_line_pq) (none, s) _ refl
        (λ v e.
          IsChoice-if (not force && slt32 (s.lm.lines v).ipc (s.sp.pgs_per_line / 8)) s (none, s)
            (some v, taken v s) refl (taken-IsSelected v s e))

  -- The outcome of do_gc: -1 and nothing done, or a victim line that is free.
  unfoldable pub IsReclaimed : Bool → Ssd Q → Ssd Q → Type 0
  IsReclaimed false s s' = s' ≡ s
  IsReclaimed true s s' =
      (v : ℕ) × (pq.peek s.lm.victim_line_pq ≡ some v) × (contains v s'.lm.free_line_list ≡ true)

  abbrev pub outcome : Option ℕ × Ssd Q → Run (Bool × Ssd Q)
  outcome x = elim (x.0) [ none ↦ ok (false, x.1) | some v ↦ gc_line v x.1 >>= λ s2. ok (true, s2) ]

  pub selected-IsConsistent :
      (s : Ssd Q) (v : ℕ) (t : Ssd Q)
      → IsConsistent s
      → IsApart v s
      → IsSelected v s t
      → IsConsistent t × IsApart v t
  selected-IsConsistent s v t k a c = (
    record {
      tables = SameMap-IsMapped c.map _ _ k.tables;
      room =
          subst (HasRoom t) (rw (c.same.sp, c.same.wp) refl)
            (SameTables-HasRoom s t _ c.same c.map k.room);
    },
    record {
      inside = a.inside;
      not_current = rw c.same.wp a.not_current;
      not_free = rw c.same.free a.not_free;
    },
  )

  chosen-IsConsistent :
      (s : Ssd Q) (x : Option ℕ × Ssd Q) (r : Bool) (s' : Ssd Q)
      → IsConsistent s
      → ((v : ℕ) → pq.peek s.lm.victim_line_pq ≡ some v → IsApart v s)
      → IsChoice s x
      → outcome x ≡ ok (r, s')
      → IsConsistent s' × Remains s s' × IsReclaimed r s s'
  unfolding IsChoice IsReclaimed
  chosen-IsConsistent s (none, t) r s' k a c e =
      let pair = ok-injective e in
      let same : s ≡ s' = sym c ∙ ap (λ (y : Bool × Ssd Q). y.1) pair in
      subst (λ y. IsConsistent y.1 × Remains s y.1 × IsReclaimed y.0 s y.1) pair
        (subst (λ y. IsConsistent y × Remains s y × (y ≡ s)) (sym c)
          (k, record { sp = refl; mapped = λ l. refl }, refl))
  chosen-IsConsistent s (some v, t) r s' k a c e =
      let (u, collected, rest) = >>=-eq-ok (gc_line v t) _ e in
      let av = a v c.peek in
      let (kt, at) = selected-IsConsistent s v t k av c in
      let (ku, remains, free) = gc_line-IsConsistent v t u kt at collected in
      subst (λ y. IsConsistent y.1 × Remains s y.1 × IsReclaimed y.0 s y.1) (ok-injective rest)
        (
          ku,
          record {
            sp = remains.sp ∙ c.map.sp;
            mapped = λ l. remains.mapped l ∙ ap (λ (f : ℕ → Ppa). mapped_ppa (f l)) c.map.maptbl;
          },
          (v, c.peek, free),
        )

  pub do_gc-IsConsistent :
      (force r : Bool) (s s' : Ssd Q)
      → IsConsistent s
      → ((v : ℕ) → pq.peek s.lm.victim_line_pq ≡ some v → IsApart v s)
      → do_gc force s ≡ ok (r, s')
      → IsConsistent s' × Remains s s' × IsReclaimed r s s'
  unfolding do_gc
  do_gc-IsConsistent force r s s' k a e =
      chosen-IsConsistent s (select_victim_line force s) r s' k a (select-IsChoice force s) e
