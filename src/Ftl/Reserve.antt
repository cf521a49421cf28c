-- ===== src/Ftl/Reserve.antt =====
-- The pages that garbage collection takes: at most one for each page of the victim line, so with a
-- line in reserve do_gc ends, and it leaves no fewer pages than it found.
use femu_on_virt.Base.{
  ℕ, zero, suc, ◌+◌, ◌*◌, ◌%◌, ◌^◌, ◌≤◌, ◌<◌, ◌≡◌, refl, sym, ◌∙◌, ap, subst, Bool, true, false,
  Run, ok, ◌>>=◌, arith, ◌==◌, ==_iff, Bool-cases, inl, inr,
}
use femu_on_virt.Ftl.Types.{Ppa, Ssd, pg_valid, nand_read, nand_write, nand_erase}
use femu_on_virt.Ftl.Victims.{Pqueue, IsPqueue}
use femu_on_virt.Ftl.Pages.{mark_block_free}
use femu_on_virt.Ftl.Lines.{get_new_page}
use femu_on_virt.Ftl.Gc.{
  gc_delay, gc_read_page, set_gc_endtime, move_mapping, gc_write_page, clean_pages, clean_one_block,
  gc_one_lun, gc_luns, gc_chs,
}
use femu_on_virt.Ftl.Geometry.{IsPage}
use femu_on_virt.Ftl.Cells.{pg_status, SameTables}
use femu_on_virt.Ftl.Mapping.{none_stale}
use femu_on_virt.Ftl.Collect.{
  IsCollecting, quiet-IsCollecting, gc_delay-IsQuiet, set_gc_endtime-IsQuiet,
}
use femu_on_virt.Ftl.Move.{moved-Assigned, moved}
use femu_on_virt.Ftl.Clean.{
  IsBlockOf, stale_at, stale_at-zero, page_at, page_at-IsPage, clean_page, clean_page-IsCollecting,
  clean_pages-IsCollecting,
}
use femu_on_virt.Ftl.Erase.{mark_block_free-Erased, gc_one_lun-IsCollecting, gc_luns-IsCollecting}
use femu_on_virt.Ftl.Space.{pages_left, advance_left}

module _ {Q : Type 0} where
  pub SameTables_left : {s s' : Ssd Q} → SameTables s s' → pages_left s' ≡ pages_left s
  SameTables_left e = rw (e.sp, e.wp, e.free) refl

  -- A step that ends, and takes at most `n` pages.
  pub record Takes (n : ℕ) (s : Ssd Q) (r : Run (Ssd Q)) : Type 0 where
    pub state : Ssd Q
    pub result : r ≡ ok state
    pub left : pages_left s ≤ pages_left state + n

module _ {Q : Type 0} ⦃pq : Pqueue Q⦄ (laws : IsPqueue pq) (b : ℕ) where
  module _ (s : Ssd Q) (stale : Ppa → Bool) (old : Ppa) (c : IsCollecting b stale s)
      (i : IsPage s.sp old) (on_b : old.blk ≡ b) (only_b : (q : Ppa) → stale q ≡ true → q.blk ≡ b)
      (fresh : stale old ≡ false) (v : pg_status s old ≡ pg_valid) where
    gc_write_page-Takes : 1 < pages_left s → Takes 1 s (gc_write_page old s)
    unfolding gc_write_page
    gc_write_page-Takes m =
        let a = moved-Assigned b s s stale old c i on_b only_b fresh v in
        let same : pages_left (move_mapping old s) ≡ pages_left s = rw (a.sp, a.wp, a.free) refl in
        let h = (moved b s s stale old c i on_b only_b fresh v laws).1 in
        let (t, to, left) = advance_left laws (move_mapping old s) h (omega (arith, same)) in
        let p = get_new_page s in
        let u = gc_delay nand_write p t in
        record {
          state = set_gc_endtime p u;
          result = ap (λ r. r >>= λ s2. ok (set_gc_endtime p (gc_delay nand_write p s2))) to;
          left = omega (
            arith,
            same,
            left,
            SameTables_left (gc_delay-IsQuiet b nand_write p t).same,
            SameTables_left (set_gc_endtime-IsQuiet b p u).same,
          );
        }

  module _ (p : Ppa) where
    clean_page-Takes :
        (pg : ℕ) (s : Ssd Q)
        → pg < 256
        → IsBlockOf b s.sp p
        → IsCollecting b (stale_at p pg) s
        → 1 < pages_left s
        → Takes 1 s (clean_page b laws p pg s)
    unfolding gc_read_page
    clean_page-Takes pg s k on c m =
        let here = page_at b laws p pg in
        elim (Bool-cases (pg_status s here == pg_valid)) [
          | inl f ↦
              let q = gc_delay-IsQuiet b nand_read here s in
              let t = gc_delay nand_read here s in
              let same = SameTables_left q.same in
              let step =
                gc_write_page-Takes t (stale_at p pg) here
                  (quiet-IsCollecting b (stale_at p pg) s t q c)
                  (rw q.map.sp (page_at-IsPage b laws p pg s.sp k c.apart.inside on)) on.blk
                  (λ r g. ground (arith, on.blk)) (ground arith)
                  (q.map.status here ∙ (==_iff _ _).0 f) (omega (arith, same)) in
              record {
                state = step.state;
                result = rw f step.result;
                left = omega (arith, step.left, same);
              }
          | inr f ↦ record { state = s; result = rw f refl; left = omega arith }
        ]

    clean_pages-Takes :
        (k pg : ℕ) (s : Ssd Q)
        → pg + k ≡ 256
        → IsBlockOf b s.sp p
        → IsCollecting b (stale_at p pg) s
        → k < pages_left s
        → Takes k s (clean_pages k pg p s)
    unfolding clean_pages
    clean_pages-Takes zero pg s n on c m = record { state = s; result = refl; left = omega arith }
    clean_pages-Takes (suc k) pg s n on c m =
        let first = clean_page-Takes pg s (omega arith) on c (omega arith) in
        let (ct, kt) =
          clean_page-IsCollecting b laws p pg s first.state (omega arith) on c first.result in
        let rest =
          clean_pages-Takes k (suc pg) first.state (omega arith) (rw kt.sp on) ct
            (omega (arith, first.left)) in
        record {
          state = rest.state;
          result = ap (λ r. r >>= clean_pages k (suc pg) p) first.result ∙ rest.result;
          left = omega (arith, first.left, rest.left);
        }

    gc_one_lun-Takes :
        (s : Ssd Q)
        → IsBlockOf b s.sp p
        → IsCollecting b none_stale s
        → 256 < pages_left s
        → Takes 256 s (gc_one_lun p s)
    unfolding gc_one_lun clean_one_block
    gc_one_lun-Takes s on c m =
        let cleaned =
          clean_pages-Takes 256 0 s (omega arith) on
            (subst (λ st. IsCollecting b st s) (sym (stale_at-zero p)) c) m in
        let t = cleaned.state in
        let (ct, kt) =
          clean_pages-IsCollecting b laws p 256 0 s t (omega arith) on
            (subst (λ st. IsCollecting b st s) (sym (stale_at-zero p)) c) cleaned.result in
        let u = mark_block_free p t in
        let er = mark_block_free-Erased b p t ct.room.layout.pgs in
        let v = gc_delay nand_erase p u in
        record {
          state = set_gc_endtime p v;
          result =
              ap
                (λ n. clean_pages n 0 p s >>= λ s1.
                  ok (set_gc_endtime p (gc_delay nand_erase p (mark_block_free p s1))))
                c.room.layout.pgs
              ∙ ap
                  (λ r. r >>= λ s1.
                    ok (set_gc_endtime p (gc_delay nand_erase p (mark_block_free p s1))))
                  cleaned.result;
          left = omega (
            arith,
            cleaned.left,
            SameTables_left er.same,
            SameTables_left (gc_delay-IsQuiet b nand_erase p u).same,
            SameTables_left (set_gc_endtime-IsQuiet b p v).same,
          );
        }

  gc_luns-Takes :
      (k lun : ℕ) (p : Ppa) (s : Ssd Q)
      → lun + k ≡ 8
      → p.ch < s.sp.nchs
      → p.blk ≡ b
      → IsCollecting b none_stale s
      → 256 * k < pages_left s
      → Takes (256 * k) s (gc_luns k lun p s)
  unfolding gc_luns
  gc_luns-Takes zero lun p s n i on c m = record { state = s; result = refl; left = omega arith }
  gc_luns-Takes (suc k) lun p s n i on c m =
      let here = record p { lun = lun % 2 ^ 8; pl = 0 } in
      let at : IsBlockOf b s.sp here = record { ch = i; lun = omega arith; pl = refl; blk = on } in
      let first = gc_one_lun-Takes here s at c (omega arith) in
      let (ct, kt, done) = gc_one_lun-IsCollecting b here laws s first.state at c first.result in
      let rest =
        gc_luns-Takes k (suc lun) p first.state (omega arith) (rw kt.sp i) on ct
          (omega (arith, first.left)) in
      record {
        state = rest.state;
        result = ap (λ r. r >>= gc_luns k (suc lun) p) first.result ∙ rest.result;
        left = omega (arith, first.left, rest.left);
      }

  pub gc_chs-Takes :
      (k ch : ℕ) (p : Ppa) (s : Ssd Q)
      → ch + k ≡ s.sp.nchs
      → p.blk ≡ b
      → IsCollecting b none_stale s
      → 2048 * k < pages_left s
      → Takes (2048 * k) s (gc_chs k ch p s)
  unfolding gc_chs
  gc_chs-Takes zero ch p s n on c m = record { state = s; result = refl; left = omega arith }
  gc_chs-Takes (suc k) ch p s n on c m =
      let here = record p { ch = ch % 2 ^ 7 } in
      let few = c.room.layout.few_chs in
      let i : here.ch < s.sp.nchs = omega arith in
      let first = gc_luns-Takes 8 0 here s (omega arith) i on c (omega arith) in
      let (ct, kt, done) =
        gc_luns-IsCollecting laws b 8 0 here s first.state (omega arith) i on c first.result in
      let rest =
        gc_chs-Takes k (suc ch) p first.state (rw kt.sp (omega arith)) on ct
          (omega (arith, first.left)) in
      record {
        state = rest.state;
        result =
            ap (λ n. gc_luns n 0 here s >>= gc_chs k (suc ch) p) c.room.layout.luns
            ∙ ap (λ r. r >>= gc_chs k (suc ch) p) first.result
            ∙ rest.result;
        left = omega (arith, first.left, rest.left);
      }
