-- ===== src/Ftl/Erase.antt =====
-- mark_block_free and the loops of do_gc over channels and LUNs: the victim line is emptied.
use femu_on_virt.Base.{
  ℕ, zero, suc, ◌+◌, ◌%◌, ◌^◌, ◌≤◌, ◌<◌, ◌≡◌, refl, sym, ◌∙◌, ap, subst, true, false, ◌&&◌, ok,
  ok-injective, >>=-eq-ok, arith, ◌==◌, Bool-cases, inl, inr, if◌then◌else◌, ltb,
}
use femu_on_virt.Ftl.Types.{Ppa, Ssd, pg_free, nand_erase}
use femu_on_virt.Ftl.Victims.{Pqueue, IsPqueue}
use femu_on_virt.Ftl.Table.{ppa2pgidx, get_pg, get_blk, set_blk}
use femu_on_virt.Ftl.Pages.{mark_block_free}
use femu_on_virt.Ftl.Gc.{gc_delay, clean_pages, clean_one_block, gc_one_lun, gc_luns, gc_chs}
use femu_on_virt.Ftl.Geometry.{IsPage}
use femu_on_virt.Ftl.Pointer.{wp_rank}
use femu_on_virt.Ftl.Cells.{pg_status, same_blk, SameTables, status-mark_block_free}
use femu_on_virt.Ftl.Mapping.{Entry, Owned, IsMapped, HasRoom, none_skipped, none_stale}
use femu_on_virt.Ftl.Collect.{
  IsCollecting, Collected, Collected-trans, Collected-refl, quiet-IsCollecting, quiet-Collected,
  gc_delay-IsQuiet, set_gc_endtime-IsQuiet,
}
use femu_on_virt.Ftl.Clean.{IsBlockOf, stale_at, stale_at-zero, clean_pages-IsCollecting}

module _ {Q : Type 0} (b : ℕ) (p : Ppa) where
  -- What mark_block_free does, as the invariant sees it.
  pub record Erased (s s' : Ssd Q) : Type 0 where
    pub same : SameTables s s'
    pub status : (q : Ppa) → pg_status s' q ≡ (if stale_at p 256 q then pg_free else pg_status s q)

  pub mark_block_free-Erased : (s : Ssd Q) → s.sp.pgs_per_blk ≡ 256 → Erased s (mark_block_free p s)
  unfolding mark_block_free set_blk get_pg get_blk
  mark_block_free-Erased s e = record {
    same = record {
      sp = refl;
      maptbl = refl;
      rmap = refl;
      wp = refl;
      free = refl;
      ids = λ i. refl;
    };
    status = λ q.
        status-mark_block_free s p q
        ∙ ap (λ n. if same_blk p q && ltb q.pg n then pg_free else pg_status s q) e;
  }

  module _ (s s' : Ssd Q) (c : IsCollecting b (stale_at p 256) s) (e : Erased s s') where
    erased-free : (q : Ppa) → pg_status s q ≡ pg_free → pg_status s' q ≡ pg_free
    erased-free q f = elim (Bool-cases (stale_at p 256 q)) [
      | inl g ↦ rw (e.status q, g)
      | inr g ↦ rw (e.status q, g) f
    ]

    same_rmap : (q : Ppa) → s'.rmap (ppa2pgidx s'.sp q) ≡ s.rmap (ppa2pgidx s.sp q)
    same_rmap q = rw (e.same.sp, e.same.rmap)

    erased-IsMapped : IsMapped s' none_skipped none_stale
    erased-IsMapped = record {
      entry = λ l i k f.
          let (en, st) = c.tables.entry l (rw e.same.sp at i) k (rw e.same.maptbl at f) in
          subst (λ (t : ℕ → Ppa). Entry s' l (t l) × (none_stale (t l) ≡ false)) (sym e.same.maptbl)
            (
              record {
                page = rw e.same.sp en.page;
                owner = same_rmap (s.maptbl l) ∙ en.owner;
                status = rw (e.status (s.maptbl l), st) en.status;
                sec = en.sec;
              },
              refl,
            );
      owned = λ q i _ v.
          let st : stale_at p 256 q ≡ false = ground (arith, e.status q) in
          let was = (c.tables.owned q (rw e.same.sp at i) st (rw (e.status q, st) at v)).0 in
          subst (λ k. Owned s' k q × (none_skipped k ≡ false)) (sym (same_rmap q))
            (
              record {
                inside = rw e.same.sp was.inside;
                mapped = rw e.same.maptbl was.mapped;
                same = rw e.same.maptbl was.same;
              },
              refl,
            );
    }

    erased-HasRoom : HasRoom s' (wp_rank s')
    erased-HasRoom =
        let h = c.room in
        record {
          layout = rw e.same.sp h.layout;
          opened = rw (e.same.sp, e.same.wp) h.opened;
          curline = rw e.same.wp h.curline;
          ids = λ i k. e.same.ids i ∙ h.ids i k;
          room = λ q i on r.
              erased-free q (
                h.room q (rw e.same.sp at i) (rw e.same.wp at on) (rw (e.same.sp, e.same.wp) at r));
          spare = rw (e.same.free, e.same.wp) h.spare;
          spare_free =
              λ q i f. erased-free q (h.spare_free q (rw e.same.sp at i) (rw e.same.free at f));
          distinct = rw e.same.free h.distinct;
        }

    erased-IsCollecting : IsCollecting b none_stale s'
    erased-IsCollecting = record {
      tables = erased-IsMapped;
      room = erased-HasRoom;
      apart = record {
        inside = c.apart.inside;
        not_current = rw e.same.wp c.apart.not_current;
        not_free = rw e.same.free c.apart.not_free;
      };
    }

    erased-Collected : Collected b s s'
    erased-Collected = record {
      sp = e.same.sp;
      mapped = λ l. rw e.same.maptbl;
      free = λ q _ f. erased-free q f;
    }

  -- The body of the loop over LUNs.
  module _ ⦃pq : Pqueue Q⦄ (laws : IsPqueue pq) where
    pub gc_one_lun-IsCollecting :
        (s s' : Ssd Q)
        → IsBlockOf b s.sp p
        → IsCollecting b none_stale s
        → gc_one_lun p s ≡ ok s'
        → IsCollecting b none_stale s'
          × Collected b s s'
          × ((q : Ppa) → stale_at p 256 q ≡ true → pg_status s' q ≡ pg_free)
    unfolding gc_one_lun clean_one_block
    gc_one_lun-IsCollecting s s' on c e =
        let (t, cleaned, rest) = >>=-eq-ok (clean_pages s.sp.pgs_per_blk 0 p s) _ e in
        let cleaned' = subst (λ n. clean_pages n 0 p s ≡ ok t) c.room.layout.pgs cleaned in
        let (ct, kt) =
          clean_pages-IsCollecting b laws p 256 0 s t refl on
            (subst (λ st. IsCollecting b st s) (sym (stale_at-zero p)) c) cleaned' in
        let u = mark_block_free p t in
        let er = mark_block_free-Erased t ct.room.layout.pgs in
        let q1 = gc_delay-IsQuiet b nand_erase p u in
        let q2 = set_gc_endtime-IsQuiet b p (gc_delay nand_erase p u) in
        subst
          (λ x.
            IsCollecting b none_stale x
            × Collected b s x
            × ((q : Ppa) → stale_at p 256 q ≡ true → pg_status x q ≡ pg_free))
          (ok-injective rest)
          (
            quiet-IsCollecting b none_stale _ _ q2
                (quiet-IsCollecting b none_stale _ _ q1 (erased-IsCollecting t u ct er)),
            Collected-trans b kt (
                Collected-trans b (erased-Collected t u ct er)
                  (Collected-trans b (quiet-Collected b _ _ q1) (quiet-Collected b _ _ q2))),
            λ q st. q2.map.status q ∙ q1.map.status q ∙ rw (er.status q, st),
          )

module _ {Q : Type 0} (b : ℕ) where
  -- The pages of line `b` on channel `p.ch`, from LUN `lun` on, are free.
  abbrev FreeFrom : ℕ → Ppa → Ssd Q → Type 0
  FreeFrom lun p s =
      (q : Ppa) → IsPage s.sp q → q.blk ≡ b → q.ch ≡ p.ch → lun ≤ q.lun → pg_status s q ≡ pg_free

  -- The pages of line `b` on the channels from `ch` on are free.
  abbrev pub AllFree : ℕ → Ssd Q → Type 0
  AllFree ch s = (q : Ppa) → IsPage s.sp q → q.blk ≡ b → ch ≤ q.ch → pg_status s q ≡ pg_free

module _ {Q : Type 0} ⦃pq : Pqueue Q⦄ (laws : IsPqueue pq) (b : ℕ) where
  pub gc_luns-IsCollecting :
      (k lun : ℕ) (p : Ppa) (s s' : Ssd Q)
      → lun + k ≡ 8
      → p.ch < s.sp.nchs
      → p.blk ≡ b
      → IsCollecting b none_stale s
      → gc_luns k lun p s ≡ ok s'
      → IsCollecting b none_stale s' × Collected b s s' × FreeFrom b lun p s'
  unfolding gc_luns
  gc_luns-IsCollecting zero lun p s s' n i on c e =
      subst (λ x. IsCollecting b none_stale x × Collected b s x × FreeFrom b lun p x)
        (ok-injective e) (c, Collected-refl b s, λ q j _ _ k. absurd (omega arith))
  gc_luns-IsCollecting (suc k) lun p s s' n i on c e =
      let here = record p { lun = lun % 2 ^ 8; pl = 0 } in
      let (t, first, rest) = >>=-eq-ok (gc_one_lun here s) _ e in
      let (ct, kt, done) =
        gc_one_lun-IsCollecting b here laws s t
          (record { ch = i; lun = omega arith; pl = refl; blk = on }) c first in
      let (cs, ks, later) =
        gc_luns-IsCollecting k (suc lun) p t s' (omega arith) (rw kt.sp i) on ct rest in
      (
        cs,
        Collected-trans b kt ks,
        λ q j qb qc le. elim (Bool-cases (q.lun == lun)) [
          | inl f ↦ ks.free q qb (done q (ground (arith, on)))
          | inr f ↦ later q j qb qc (ground arith)
        ],
      )

  pub gc_chs-IsCollecting :
      (k ch : ℕ) (p : Ppa) (s s' : Ssd Q)
      → ch + k ≡ s.sp.nchs
      → p.blk ≡ b
      → IsCollecting b none_stale s
      → gc_chs k ch p s ≡ ok s'
      → IsCollecting b none_stale s' × Collected b s s' × AllFree b ch s'
  unfolding gc_chs
  gc_chs-IsCollecting zero ch p s s' n on c e =
      subst (λ x. IsCollecting b none_stale x × Collected b s x × AllFree b ch x) (ok-injective e)
        (c, Collected-refl b s, λ q j _ k. absurd (omega arith))
  gc_chs-IsCollecting (suc k) ch p s s' n on c e =
      let here = record p { ch = ch % 2 ^ 7 } in
      let few = c.room.layout.few_chs in
      let (t, first, rest) = >>=-eq-ok (gc_luns s.sp.luns_per_ch 0 here s) _ e in
      let first' = subst (λ n. gc_luns n 0 here s ≡ ok t) c.room.layout.luns first in
      let (ct, kt, done) = gc_luns-IsCollecting 8 0 here s t refl (omega arith) on c first' in
      let (cs, ks, later) =
        gc_chs-IsCollecting k (suc ch) p t s' (rw kt.sp (omega arith)) on ct rest in
      (
        cs,
        Collected-trans b kt ks,
        λ q j qb le. elim (Bool-cases (q.ch == ch)) [
          | inl f ↦ ks.free q qb (done q (rw⁻¹ ks.sp j) qb (ground arith) (omega arith))
          | inr f ↦ later q j qb (ground arith)
        ],
      )
