-- ===== src/Ftl/Clean.antt =====
-- clean_one_block and the loop body of do_gc: a block of the victim line is emptied and erased.
use femu_on_virt.Base.{
  ℕ, zero, suc, ◌+◌, ◌%◌, ◌^◌, ◌<◌, ◌≡◌, ◌≢◌, ◌∙◌, subst, fun_ext, Bool, false, ◌&&◌, ◌||◌, Run, ok,
  ok-injective, >>=-eq-ok, arith, ◌==◌, ==_iff, Bool-cases, inl, inr, if◌then◌else◌, ltb,
}
use femu_on_virt.Ftl.Types.{Ppa, SsdParams, Ssd, pg_valid, nand_read}
use femu_on_virt.Ftl.Victims.{Pqueue, IsPqueue}
use femu_on_virt.Ftl.Table.{get_pg}
use femu_on_virt.Ftl.Gc.{gc_delay, gc_read_page, gc_write_page, clean_pages}
use femu_on_virt.Ftl.Geometry.{IsPage}
use femu_on_virt.Ftl.Cells.{pg_status, same_blk, same_page, same_page_iff, status-SamePage}
use femu_on_virt.Ftl.Mapping.{none_stale}
use femu_on_virt.Ftl.Collect.{
  IsCollecting, Collected, Collected-trans, Collected-refl, quiet-IsCollecting, quiet-Collected,
  gc_delay-IsQuiet,
}
use femu_on_virt.Ftl.Move.{gc_write_page-IsCollecting}

-- A block of the device on line `b`.
pub record IsBlockOf (b : ℕ) (spp : SsdParams) (p : Ppa) : Type 0 where
  pub ch : p.ch < spp.nchs
  pub lun : p.lun < 8
  pub pl : p.pl ≡ 0
  pub blk : p.blk ≡ b

-- The pages of the block of `p` before page `pg`.
abbrev pub stale_at : Ppa → ℕ → Ppa → Bool
stale_at p pg q = same_blk p q && ltb q.pg pg

pub stale_at-zero : (p : Ppa) → stale_at p 0 ≡ none_stale
stale_at-zero p = fun_ext (λ q. ground arith)

stale_at-suc :
    (p : Ppa) (pg : ℕ)
    → pg < 256
    → (λ (q : Ppa). stale_at p pg q || same_page (record p { pg = pg % 2 ^ 16 }) q)
      ≡ stale_at p (suc pg)
stale_at-suc p pg k = fun_ext (λ q. ground arith)

module _ {Q : Type 0} (b : ℕ) where
  -- A page that is not valid has no logical page to lose.
  skip-IsCollecting :
      (stale : Ppa → Bool) (here : Ppa) (s : Ssd Q)
      → pg_status s here ≢ pg_valid
      → IsCollecting b stale s
      → IsCollecting b (λ q. stale q || same_page here q) s
  skip-IsCollecting stale here s ne c = record {
    tables = record {
      entry = λ l i k f.
          let (en, st) = c.tables.entry l i k f in
          let apart : same_page here (s.maptbl l) ≡ false =
            elim (Bool-cases (same_page here (s.maptbl l))) [
              | inl e ↦ absurd (
                  ne (
                    status-SamePage s here (s.maptbl l) ((same_page_iff here (s.maptbl l)).0 e)
                    ∙ en.status))
              | inr e ↦ e
            ] in
          (en, rw (st, apart));
      owned = λ p i f v. c.tables.owned p i (ground arith) v;
    };
    room = c.room;
    apart = c.apart;
  }

  module _ ⦃pq : Pqueue Q⦄ (laws : IsPqueue pq) (p : Ppa) where
    abbrev pub page_at : ℕ → Ppa
    page_at pg = record p { pg = pg % 2 ^ 16 }

    -- One round of the loop of clean_one_block.
    abbrev pub clean_page : ℕ → Ssd Q → Run (Ssd Q)
    clean_page pg s =
        if (get_pg s (page_at pg)).status == pg_valid
        then gc_write_page (page_at pg) (gc_read_page (page_at pg) s)
        else ok s

    pub page_at-IsPage :
        (pg : ℕ) (spp : SsdParams)
        → pg < 256
        → b < 256
        → IsBlockOf b spp p
        → IsPage spp (page_at pg)
    page_at-IsPage pg spp k j on = record {
      ch = on.ch;
      lun = on.lun;
      pl = on.pl;
      blk = omega (arith, on.blk);
      pg = omega arith;
    }

    pub clean_page-IsCollecting :
        (pg : ℕ) (s s' : Ssd Q)
        → pg < 256
        → IsBlockOf b s.sp p
        → IsCollecting b (stale_at p pg) s
        → clean_page pg s ≡ ok s'
        → IsCollecting b (stale_at p (suc pg)) s' × Collected b s s'
    unfolding gc_read_page
    clean_page-IsCollecting pg s s' k on c e =
        let here = page_at pg in
        elim (Bool-cases (pg_status s here == pg_valid)) [
          | inl f ↦
              let q = gc_delay-IsQuiet b nand_read here s in
              let t = gc_delay nand_read here s in
              let (done, kept) =
                gc_write_page-IsCollecting b t s' (stale_at p pg) here
                  (quiet-IsCollecting b (stale_at p pg) s t q c)
                  (rw q.map.sp (page_at-IsPage pg s.sp k c.apart.inside on)) on.blk
                  (λ r g. ground (arith, on.blk)) (ground arith)
                  (q.map.status here ∙ (==_iff _ _).0 f) laws (rw f at e) in
              (
                subst (λ st. IsCollecting b st s') (stale_at-suc p pg k) done,
                Collected-trans b (quiet-Collected b s t q) kept,
              )
          | inr f ↦
              let ne : pg_status s here ≢ pg_valid = λ g. ground arith in
              let same : ok s ≡ ok s' = rw f at e in
              subst (λ x. IsCollecting b (stale_at p (suc pg)) x × Collected b s x)
                (ok-injective same)
                (
                  subst (λ st. IsCollecting b st s) (stale_at-suc p pg k)
                      (skip-IsCollecting (stale_at p pg) here s ne c),
                  Collected-refl b s,
                )
        ]

    pub clean_pages-IsCollecting :
        (k pg : ℕ) (s s' : Ssd Q)
        → pg + k ≡ 256
        → IsBlockOf b s.sp p
        → IsCollecting b (stale_at p pg) s
        → clean_pages k pg p s ≡ ok s'
        → IsCollecting b (stale_at p 256) s' × Collected b s s'
    unfolding clean_pages
    clean_pages-IsCollecting zero pg s s' k on c e =
        subst (λ x. IsCollecting b (stale_at p 256) x × Collected b s x) (ok-injective e)
          (subst (λ n. IsCollecting b (stale_at p n) s) (omega arith) c, Collected-refl b s)
    clean_pages-IsCollecting (suc k) pg s s' n on c e =
        let (t, first, rest) = >>=-eq-ok (clean_page pg s) _ e in
        let (ct, kt) = clean_page-IsCollecting pg s t (omega arith) on c first in
        let (cs, ks) =
          clean_pages-IsCollecting k (suc pg) t s' (omega arith) (rw kt.sp on) ct rest in
        (cs, Collected-trans b kt ks)
