-- ===== src/Ftl/Collect.antt =====
-- The collector on one page of the victim line (gc_read_page, gc_write_page): the invariant while a
-- block is being cleaned.
use femu_on_virt.Base.{
  ℕ, ◌<◌, ◌≡◌, refl, sym, ◌∙◌, ap, subst, Bool, true, false, ◌||◌, arith, ◌==◌, ==-false, ==_iff,
  Bool-cases, inl, inr, if◌then◌else◌,
}
use femu_on_virt.Ftl.Types.{Ppa, Ssd, pg_free, pg_valid}
use femu_on_virt.Ftl.Table.{ppa2pgidx, mapped_ppa, get_pg, get_blk, get_lun, set_lun}
use femu_on_virt.Ftl.Gc.{gc_cmd, gc_delay, set_gc_endtime}
use femu_on_virt.Ftl.Geometry.{IsPage, SamePage, pgidx-SamePage}
use femu_on_virt.Ftl.Pointer.{wp_rank}
use femu_on_virt.Ftl.Cells.{
  pg_status, same_page, same_page_iff, SameTables, advance_status-SameTables,
}
use femu_on_virt.Ftl.Mapping.{
  Entry, Owned, IsMapped, HasRoom, IsApart, SameMap, SameMap-IsMapped, none_skipped,
}
use femu_on_virt.Ftl.Write.{advance_status-SameMap, SameTables-HasRoom}

-- The state while the victim line `b` is collected.
pub record IsCollecting {Q : Type 0} (b : ℕ) (stale : Ppa → Bool) (s : Ssd Q) : Type 0 where
  pub tables : IsMapped s none_skipped stale
  pub room : HasRoom s (wp_rank s)
  pub apart : IsApart b s

-- What a part of the collection leaves: the same logical pages are mapped, and a free page of the
-- victim line stays free.
pub record Collected {Q : Type 0} (b : ℕ) (s s' : Ssd Q) : Type 0 where
  pub sp : s'.sp ≡ s.sp
  pub mapped : (l : ℕ) → mapped_ppa (s'.maptbl l) ≡ mapped_ppa (s.maptbl l)
  pub free : (q : Ppa) → q.blk ≡ b → pg_status s q ≡ pg_free → pg_status s' q ≡ pg_free

module _ {Q : Type 0} (b : ℕ) where
  pub Collected-trans : {s t u : Ssd Q} → Collected b s t → Collected b t u → Collected b s u
  Collected-trans x y = record {
    sp = y.sp ∙ x.sp;
    mapped = λ l. y.mapped l ∙ x.mapped l;
    free = λ q e f. y.free q e (x.free q e f);
  }

  pub Collected-refl : (s : Ssd Q) → Collected b s s
  Collected-refl s = record { sp = refl; mapped = λ l. refl; free = λ q e f. f }

  -- A change of timing only.
  pub record IsQuiet (s s' : Ssd Q) : Type 0 where
    pub same : SameTables s s'
    pub map : SameMap s s'

  pub quiet-IsCollecting :
      (stale : Ppa → Bool) (s s' : Ssd Q)
      → IsQuiet s s'
      → IsCollecting b stale s
      → IsCollecting b stale s'
  quiet-IsCollecting stale s s' q c = record {
    tables = SameMap-IsMapped q.map _ _ c.tables;
    room =
        subst (HasRoom s') (rw (q.same.sp, q.same.wp) refl)
          (SameTables-HasRoom s s' _ q.same q.map c.room);
    apart = record {
      inside = c.apart.inside;
      not_current = rw q.same.wp c.apart.not_current;
      not_free = rw q.same.free c.apart.not_free;
    };
  }

  pub quiet-Collected : (s s' : Ssd Q) → IsQuiet s s' → Collected b s s'
  quiet-Collected s s' q = record {
    sp = q.map.sp;
    mapped = λ l. ap (λ (f : ℕ → Ppa). mapped_ppa (f l)) q.map.maptbl;
    free = λ p e f. q.map.status p ∙ f;
  }

  IsQuiet-if : (c : Bool) (s s' : Ssd Q) → IsQuiet s s' → IsQuiet s (if c then s' else s)
  IsQuiet-if true s s' q = q
  IsQuiet-if false s s' q = record {
    same = record {
      sp = refl;
      maptbl = refl;
      rmap = refl;
      wp = refl;
      free = refl;
      ids = λ i. refl;
    };
    map = record { sp = refl; maptbl = refl; rmap = refl; status = λ p. refl };
  }

  pub gc_delay-IsQuiet : (c : ℕ) (p : Ppa) (s : Ssd Q) → IsQuiet s (gc_delay c p s)
  unfolding gc_delay
  gc_delay-IsQuiet c p s = IsQuiet-if s.sp.enable_gc_delay s _ (record {
    same = advance_status-SameTables s p (gc_cmd c);
    map = advance_status-SameMap s p (gc_cmd c);
  })

  pub set_gc_endtime-IsQuiet : (p : Ppa) (s : Ssd Q) → IsQuiet s (set_gc_endtime p s)
  unfolding set_gc_endtime set_lun get_lun get_pg get_blk
  set_gc_endtime-IsQuiet p s = record {
    same = record {
      sp = refl;
      maptbl = refl;
      rmap = refl;
      wp = refl;
      free = refl;
      ids = λ i. refl;
    };
    map = record { sp = refl; maptbl = refl; rmap = refl; status = λ q. ground arith };
  }

-- Forgetting the mapping of the page `old`, which is to be moved.
module _ {Q : Type 0} (s : Ssd Q) (stale : Ppa → Bool) (old : Ppa)
    (m : IsMapped s none_skipped stale) (i : IsPage s.sp old) (fresh : stale old ≡ false)
    (v : pg_status s old ≡ pg_valid) where
  abbrev pub owner : ℕ
  owner = s.rmap (ppa2pgidx s.sp old)

  abbrev pub stale_too : Ppa → Bool
  stale_too q = stale q || same_page old q

  pub old-Owned : Owned s owner old
  old-Owned = (m.owned old i fresh v).0

  others :
      (l : ℕ)
      → l < s.sp.tt_pgs
      → (l == owner) ≡ false
      → mapped_ppa (s.maptbl l) ≡ true
      → Entry s l (s.maptbl l) × (stale_too (s.maptbl l) ≡ false)
  others l k ne f =
      let (en, st) = m.entry l k refl f in
      let apart : same_page old (s.maptbl l) ≡ false =
        elim (Bool-cases (same_page old (s.maptbl l))) [
          | inl e ↦
              let same =
                pgidx-SamePage s.sp old (s.maptbl l) ((same_page_iff old (s.maptbl l)).0 e) in
              let mine : l ≡ owner = sym en.owner ∙ sym (ap s.rmap same) in
              absurd (cc (ne, (==_iff l owner).1 mine))
          | inr e ↦ e
        ] in
      (en, rw (st, apart))

  still-Owned :
      (p : Ppa)
      → IsPage s.sp p
      → stale_too p ≡ false
      → pg_status s p ≡ pg_valid
      → Owned s (s.rmap (ppa2pgidx s.sp p)) p × ((s.rmap (ppa2pgidx s.sp p) == owner) ≡ false)
  still-Owned p k f w =
      let st : stale p ≡ false = ground arith in
      let o = (m.owned p k st w).0 in
      (
        o,
        ==-false _ _ (λ (e : s.rmap (ppa2pgidx s.sp p) ≡ owner).
            let mine = subst (λ n. Owned s n p) e o in
            let same : SamePage old p = record {
              ch = sym old-Owned.same.ch ∙ mine.same.ch;
              lun = sym old-Owned.same.lun ∙ mine.same.lun;
              pl = sym old-Owned.same.pl ∙ mine.same.pl;
              blk = sym old-Owned.same.blk ∙ mine.same.blk;
              pg = sym old-Owned.same.pg ∙ mine.same.pg;
            } in
            let hit = (same_page_iff old p).1 same in ground arith),
      )

  pub forget : IsMapped s (λ l. l == owner) stale_too
  forget = record { entry = λ l k ne f. others l k ne f; owned = λ p k f w. still-Owned p k f w }
