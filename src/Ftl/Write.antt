-- ===== src/Ftl/Write.antt =====
-- ssd_write's loop over the pages of a request keeps the mapping consistent.
use femu_on_virt.Base.{
  ℕ, zero, suc, ◌+◌, ◌≤◌, ◌<◌, ◌≡◌, refl, ◌∙◌, ap, subst, Bool, false, ◌&&◌, ◌||◌, ok, ok-injective,
  >>=-eq-ok, arith, ◌==◌, ==_comm, Bool-cases, inl, inr, ltb, leb,
}
use femu_on_virt.Ftl.Types.{Ppa, NandCmd, Ssd}
use femu_on_virt.Ftl.Victims.{Pqueue, IsPqueue}
use femu_on_virt.Ftl.Table.{mapped_ppa}
use femu_on_virt.Ftl.Nand.{ssd_advance_status}
use femu_on_virt.Ftl.Lines.{get_new_page, ssd_advance_write_pointer}
use femu_on_virt.Ftl.Io.{drop_old_page, map_new_page, write_page, write_pages, user_cmd}
use femu_on_virt.Ftl.Types.{nand_write}
use femu_on_virt.Ftl.Pointer.{wp_rank, new_page-mapped}
use femu_on_virt.Ftl.Cells.{SameTables, status-advance, advance_status-SameTables}
use femu_on_virt.Ftl.Mapping.{
  IsMapped, HasRoom, IsConsistent, SameMap, SameMap-IsMapped, none_skipped, none_stale,
}
use femu_on_virt.Ftl.Assign.{Assigned, assign-Assigned, assigned-IsMapped, assigned-HasRoom}
use femu_on_virt.Ftl.Drop.{Dropped, drop_old_page-Dropped, dropped-IsMapped, dropped-HasRoom}
use femu_on_virt.Ftl.Advance.{advance-HasRoom}

module _ {Q : Type 0} where
  pub advance_status-SameMap :
      (s : Ssd Q) (p : Ppa) (c : NandCmd) → SameMap s (ssd_advance_status p c s).1
  advance_status-SameMap s p c =
      let e = advance_status-SameTables s p c in
      record { sp = e.sp; maptbl = e.maptbl; rmap = e.rmap; status = λ q. status-advance s p q c }

  pub SameTables-HasRoom :
      (s s' : Ssd Q) (from : ℕ) → SameTables s s' → SameMap s s' → HasRoom s from → HasRoom s' from
  SameTables-HasRoom s s' from e m h = record {
    layout = rw e.sp h.layout;
    opened = rw (e.sp, e.wp) h.opened;
    curline = rw e.wp h.curline;
    ids = λ i k. e.ids i ∙ h.ids i k;
    room = λ p i b r. m.status p ∙ h.room p (rw e.sp at i) (rw e.wp at b) (rw e.sp at r);
    spare = rw (e.free, e.wp) h.spare;
    spare_free = λ p i c. m.status p ∙ h.spare_free p (rw e.sp at i) (rw e.free at c);
    distinct = rw e.free h.distinct;
  }

  pub advance_status-IsConsistent :
      (s : Ssd Q) (p : Ppa) (c : NandCmd)
      → IsConsistent s
      → IsConsistent (ssd_advance_status p c s).1
  advance_status-IsConsistent s p c k =
      let e = advance_status-SameTables s p c in
      let m = advance_status-SameMap s p c in
      record {
        tables = SameMap-IsMapped m _ _ k.tables;
        room = rw (e.sp, e.wp) (SameTables-HasRoom s _ _ e m k.room);
      }

-- How the mapping changes: exactly the pages that `hit` names become mapped, and no other entry of
-- maptbl is written.
pub record Remapped {Q : Type 0} (hit : ℕ → Bool) (s s' : Ssd Q) : Type 0 where
  pub sp : s'.sp ≡ s.sp
  pub mapped : (l : ℕ) → mapped_ppa (s'.maptbl l) ≡ (hit l || mapped_ppa (s.maptbl l))
  pub kept : (l : ℕ) → hit l ≡ false → s'.maptbl l ≡ s.maptbl l

-- The logical pages `lpn`, …, `lpn + n - 1`.
abbrev pub in_range : ℕ → ℕ → ℕ → Bool
in_range lpn n l = leb lpn l && ltb l (lpn + n)

module _ {Q : Type 0} where
  pub Remapped-trans :
      (h₁ h₂ h₃ : ℕ → Bool) (s t u : Ssd Q)
      → ((l : ℕ) → h₃ l ≡ (h₁ l || h₂ l))
      → Remapped h₁ s t
      → Remapped h₂ t u
      → Remapped h₃ s u
  Remapped-trans h₁ h₂ h₃ s t u e a b = record {
    sp = b.sp ∙ a.sp;
    mapped = λ l. ground (arith, e l, a.mapped l, b.mapped l);
    kept = λ l ne. b.kept l (ground (arith, e l)) ∙ a.kept l (ground (arith, e l));
  }

  pub Remapped-refl : (h : ℕ → Bool) (s : Ssd Q) → ((l : ℕ) → h l ≡ false) → Remapped h s s
  Remapped-refl h s e = record { sp = refl; mapped = λ l. rw (e l); kept = λ l ne. refl }

in_range-suc : (lpn n l : ℕ) → in_range lpn (suc n) l ≡ ((l == lpn) || in_range (suc lpn) n l)
in_range-suc lpn n l = ground arith

in_range-zero : (lpn l : ℕ) → in_range lpn 0 l ≡ false
in_range-zero lpn l = ground arith

module _ {Q : Type 0} ⦃pq : Pqueue Q⦄ (laws : IsPqueue pq) where
  -- The state after the tables are written, before the pointer moves.
  module _ (lpn : ℕ) (s : Ssd Q) (k : IsConsistent s) (inside : lpn < s.sp.tt_pgs) where
    abbrev pub filled : Ssd Q
    filled = map_new_page lpn (drop_old_page lpn s)

    pub filled-Assigned : Assigned lpn (drop_old_page lpn s) filled
    unfolding map_new_page
    filled-Assigned = assign-Assigned lpn (drop_old_page lpn s)

    pub dropped : Dropped lpn s (drop_old_page lpn s)
    dropped = drop_old_page-Dropped laws lpn s

    pub filled_sound :
        IsMapped filled none_skipped none_stale × HasRoom filled (suc (wp_rank filled))
    filled_sound =
        let s1 = drop_old_page lpn s in
        let m = dropped-IsMapped lpn s s1 k.tables k.room inside dropped in
        let h = dropped-HasRoom lpn s s1 k.tables k.room inside dropped in
        let i : lpn < s1.sp.tt_pgs = rw dropped.sp inside in
        let a = filled-Assigned in
        (
          assigned-IsMapped lpn s1 filled none_stale m h i a refl,
          subst (λ n. HasRoom filled (suc n)) (rw (a.sp, a.wp))
              (assigned-HasRoom lpn s1 filled none_stale m h i a refl),
        )

    filled-Remapped : Remapped (λ l. l == lpn) s filled
    filled-Remapped =
        let a = filled-Assigned in
        let d = dropped in
        record {
          sp = a.sp ∙ d.sp;
          mapped = λ l. elim (Bool-cases (l == lpn)) [
            | inl e ↦ rw (e, a.maptbl l, ==_comm lpn l ∙ e) (new_page-mapped (drop_old_page lpn s))
            | inr e ↦ rw (e, a.maptbl l, ==_comm lpn l ∙ e, d.maptbl)
          ];
          kept = λ l ne. rw (a.maptbl l, ==_comm lpn l ∙ ne, d.maptbl);
        }

  SameMap-Remapped :
      (hit : ℕ → Bool) (s t u : Ssd Q) → Remapped hit s t → SameMap t u → Remapped hit s u
  SameMap-Remapped hit s t u r m = record {
    sp = m.sp ∙ r.sp;
    mapped = λ l. ap (λ (f : ℕ → Ppa). mapped_ppa (f l)) m.maptbl ∙ r.mapped l;
    kept = λ l ne. ap (λ (f : ℕ → Ppa). f l) m.maptbl ∙ r.kept l ne;
  }

  -- Writing one page.
  pub write_page-IsConsistent :
      (stime lpn maxlat lat : ℕ) (s s' : Ssd Q)
      → IsConsistent s
      → lpn < s.sp.tt_pgs
      → write_page stime lpn (maxlat, s) ≡ ok (lat, s')
      → IsConsistent s' × Remapped (λ l. l == lpn) s s'
  unfolding write_page
  write_page-IsConsistent stime lpn maxlat lat s s' k inside e =
      let t = filled lpn s k inside in
      let (u, advanced, rest) = >>=-eq-ok (ssd_advance_write_pointer t) _ e in
      let sound = filled_sound lpn s k inside in
      let (h, m) = advance-HasRoom laws t u sound.1 advanced in
      let p = get_new_page (drop_old_page lpn s) in
      let c = user_cmd nand_write stime in
      let final : (ssd_advance_status p c u).1 ≡ s' =
        ap (λ (r : ℕ × Ssd Q). r.1) (ok-injective rest) in
      subst (λ x. IsConsistent x × Remapped (λ l. l == lpn) s x) final
        (
          advance_status-IsConsistent u p c
              (record { tables = SameMap-IsMapped m _ _ sound.0; room = h }),
          SameMap-Remapped (λ l. l == lpn) s u _
              (SameMap-Remapped (λ l. l == lpn) s t u (filled-Remapped lpn s k inside) m)
              (advance_status-SameMap u p c),
        )

  -- Writing `n` pages from `lpn` on.
  pub write_pages-IsConsistent :
      (n lpn stime maxlat lat : ℕ) (s s' : Ssd Q)
      → IsConsistent s
      → lpn + n ≤ s.sp.tt_pgs
      → write_pages n lpn stime (maxlat, s) ≡ ok (lat, s')
      → IsConsistent s' × Remapped (in_range lpn n) s s'
  unfolding write_pages
  write_pages-IsConsistent zero lpn stime maxlat lat s s' k i e =
      subst (λ x. IsConsistent x × Remapped (in_range lpn 0) s x)
        (ap (λ (r : ℕ × Ssd Q). r.1) (ok-injective e)) (k, Remapped-refl _ s (in_range-zero lpn))
  write_pages-IsConsistent (suc n) lpn stime maxlat lat s s' k i e =
      let ((m, t), one, rest) = >>=-eq-ok (write_page stime lpn (maxlat, s)) _ e in
      let (c, r) = write_page-IsConsistent stime lpn maxlat m s t k (omega arith) one in
      let fits : suc lpn + n ≤ t.sp.tt_pgs = rw r.sp (omega arith) in
      let (c', r') = write_pages-IsConsistent n (suc lpn) stime m lat t s' c fits rest in
      (
        c',
        Remapped-trans (λ l. l == lpn) (in_range (suc lpn) n) (in_range lpn (suc n)) s t s'
            (in_range-suc lpn n) r r',
      )
