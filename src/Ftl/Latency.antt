-- ===== src/Ftl/Latency.antt =====
-- ssd_advance_status and ssd_read: what a NAND command costs, and what a read leaves alone.
use femu_on_virt.Base.{
  ℕ, ◌+◌, ◌≤◌, ◌<◌, ◌^◌, ◌≡◌, ◌≢◌, refl, sym, subst, Bool, true, false, ◌&&◌, arith, ltb, ◌==◌,
  Bool-cases, inl, inr, if◌then◌else◌,
}
use femu_on_virt.Ftl.Types.{Ppa, NandCmd, SsdParams, Ssd, nand_read, nand_erase}
use femu_on_virt.Ftl.Table.{get_lun, set_lun, get_maptbl_ent, mapped_ppa}
use femu_on_virt.Ftl.Nand.{cmd_latency, ssd_advance_status}
use femu_on_virt.Ftl.Geometry.{valid_ppa_iff}
use femu_on_virt.Ftl.Mapping.{IsConsistent, SameMap}
use femu_on_virt.Ftl.Write.{advance_status-SameMap, advance_status-IsConsistent}
use femu_on_virt.Ftl.Io.{user_cmd, max_lat, read_page}

abbrev pub same_lun : Ppa → Ppa → Bool
same_lun p q = (p.ch == q.ch) && (p.lun == q.lun)

abbrev pub later : ℕ → ℕ → ℕ
later a b = if ltb a b then b else a

read_latency :
    (stime : ℕ) (spp : SsdParams)
    → spp.pg_rd_lat < 2 ^ 31
    → cmd_latency spp (user_cmd nand_read stime) ≡ spp.pg_rd_lat
unfolding cmd_latency
read_latency stime spp h = ground arith

max_lat-right : (a b : ℕ) → b ≤ max_lat a b
unfolding max_lat
max_lat-right a b = ground arith

max_lat-left : (a b c : ℕ) → c ≤ a → c ≤ max_lat a b
unfolding max_lat
max_lat-left a b c h = ground arith

max_lat-bound : (a b c d : ℕ) → a + c ≤ d → b + c ≤ d → max_lat a b + c ≤ d
unfolding max_lat
max_lat-bound a b c d h k = ground arith

module _ {Q : Type 0} where
  -- When the LUN of `p` is next free.
  abbrev pub avail : Ssd Q → Ppa → ℕ
  avail s p = (get_lun s p).next_lun_avail_time

  -- For a read, write or erase command with a start time that is not 0, and no overflow of the
  -- clock, ssd_advance_status returns the time from the command's start to its end, which is its
  -- latency after the later of its start and the end of the LUN's work. The LUN is busy until
  -- then, and no other LUN's time changes.
  pub advance_status-time :
      (s : Ssd Q) (p : Ppa) (c : NandCmd)
      → c.stime ≢ 0
      → c.cmd ≤ nand_erase
      → later (avail s p) c.stime + cmd_latency s.sp c < 2 ^ 64
      → ((ssd_advance_status p c s).0 + c.stime ≡ later (avail s p) c.stime + cmd_latency s.sp c)
        × ((q : Ppa)
            → avail (ssd_advance_status p c s).1 q ≡ (
                if same_lun p q then later (avail s p) c.stime + cmd_latency s.sp c else avail s q))
  unfolding ssd_advance_status set_lun get_lun cmd_latency
  advance_status-time s p c n k lt = (ground arith, λ q. ground arith)

  read_page-valid :
      (stime lpn maxlat : ℕ) (s : Ssd Q)
      → IsConsistent s
      → lpn < s.sp.tt_pgs
      → mapped_ppa (s.maptbl lpn) ≡ true
      → read_page stime lpn (maxlat, s) ≡ (
          let r = ssd_advance_status (s.maptbl lpn) (user_cmd nand_read stime) s in
          (max_lat r.0 maxlat, r.1))
  unfolding read_page get_maptbl_ent
  read_page-valid stime lpn maxlat s k i m =
      let e = (k.tables.entry lpn i refl m).0 in
      let v = (valid_ppa_iff k.room.layout (s.maptbl lpn)).1 (e.page, omega (arith, e.sec)) in
      rw (m, v) refl

  read_page-unmapped :
      (stime lpn maxlat : ℕ) (s : Ssd Q)
      → mapped_ppa (s.maptbl lpn) ≡ false
      → read_page stime lpn (maxlat, s) ≡ (maxlat, s)
  unfolding read_page get_maptbl_ent
  read_page-unmapped stime lpn maxlat s m = rw m refl

  -- No LUN is busy after the time `t`.
  abbrev pub IsIdleAt : ℕ → Ssd Q → Type 0
  IsIdleAt t s = (q : Ppa) → avail s q ≤ t

  -- One page of a read, on a device that is idle at `t`.
  pub record PageRead (stime lpn maxlat t : ℕ) (s : Ssd Q) (r : ℕ × Ssd Q) : Type 0 where
    pub consistent : IsConsistent (r.1)
    pub same : SameMap s (r.1)
    pub idle : IsIdleAt (t + s.sp.pg_rd_lat) (r.1)
    pub grows : maxlat ≤ r.0
    pub bounded : (maxlat + stime ≤ t) → r.0 + stime ≤ t + s.sp.pg_rd_lat
    pub costs : mapped_ppa (s.maptbl lpn) ≡ true → s.sp.pg_rd_lat ≤ r.0
    pub free : mapped_ppa (s.maptbl lpn) ≡ false → r ≡ (maxlat, s)

  pub read_page-PageRead :
      (stime lpn maxlat t : ℕ) (s : Ssd Q)
      → IsConsistent s
      → lpn < s.sp.tt_pgs
      → stime ≢ 0
      → stime ≤ t
      → IsIdleAt t s
      → s.sp.pg_rd_lat < 2 ^ 31
      → t + s.sp.pg_rd_lat < 2 ^ 64
      → PageRead stime lpn maxlat t s (read_page stime lpn (maxlat, s))
  read_page-PageRead stime lpn maxlat t s k i n le idle small fits =
      elim (Bool-cases (mapped_ppa (s.maptbl lpn))) [
        | inl m ↦
            let p = s.maptbl lpn in
            let c = user_cmd nand_read stime in
            let cost : cmd_latency s.sp c ≡ s.sp.pg_rd_lat = read_latency stime s.sp small in
            let time = advance_status-time s p c n (omega arith) (ground (arith, idle p, cost)) in
            subst (PageRead stime lpn maxlat t s) (sym (read_page-valid stime lpn maxlat s k i m))
              (record {
                consistent = advance_status-IsConsistent s p c k;
                same = advance_status-SameMap s p c;
                idle = λ q. ground (arith, time.1 q, idle q, idle p, cost);
                grows = max_lat-right (ssd_advance_status p c s).0 maxlat;
                bounded =
                    λ b. max_lat-bound _ _ _ _ (ground (arith, time.0, idle p, cost)) (omega arith);
                costs = λ _. max_lat-left _ _ _ (ground (arith, time.0, cost));
                free = λ f. cc (f, m);
              })
        | inr m ↦
            subst (PageRead stime lpn maxlat t s) (sym (read_page-unmapped stime lpn maxlat s m))
              (record {
                consistent = k;
                same = record { sp = refl; maptbl = refl; rmap = refl; status = λ p. refl };
                idle = λ q. omega (arith, idle q);
                grows = omega arith;
                bounded = λ b. omega arith;
                costs = λ f. cc (f, m);
                free = λ _. refl;
              })
      ]
