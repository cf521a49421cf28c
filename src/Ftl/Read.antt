-- ===== src/Ftl/Read.antt =====
-- ssd_read: the latency of a request, and what it leaves alone.
use femu_on_virt.Base.{
  ℕ, zero, suc, ◌+◌, ◌-◌, ◌*◌, ◌≤◌, ◌<◌, ◌^◌, ◌≡◌, ◌≢◌, refl, ◌∙◌, ap, subst, true, false, arith,
  leb, ◌==◌, ==_iff, Bool-cases, inl, inr, sext64,
}
use femu_on_virt.Ftl.Types.{Ppa, SsdParams, Ssd}
use femu_on_virt.Ftl.Table.{mapped_ppa}
use femu_on_virt.Ftl.Io.{RwCommand, read_page, read_pages, ssd_read, start_lpn, end_lpn}
use femu_on_virt.Ftl.Geometry.{IsLayout}
use femu_on_virt.Ftl.Mapping.{IsConsistent, SameMap}
use femu_on_virt.Ftl.Advance.{SameMap-trans}
use femu_on_virt.Ftl.Latency.{IsIdleAt, PageRead, read_page-PageRead}

suc_mul : (k d : ℕ) → suc k * d ≡ d + k * d
suc_mul k d = grind arith

-- The logical pages of a request: the first is not behind the last.
pub lpns_rise :
    (spp : SsdParams) (cmd : RwCommand)
    → spp.secs_per_pg ≡ 8
    → cmd.slba + (cmd.length + 1) < 2 ^ 64
    → start_lpn spp cmd ≤ end_lpn spp cmd
unfolding start_lpn end_lpn
lpns_rise spp cmd e h = rw e (omega arith)

pub in_device :
    (spp : SsdParams) (last : ℕ)
    → IsLayout spp
    → last < spp.tt_pgs
    → leb (sext64 spp.tt_pgs) last ≡ false
in_device spp last l h = ground (arith, l.size, l.few_chs)

pub out_of_device :
    (spp : SsdParams) (last : ℕ)
    → IsLayout spp
    → spp.tt_pgs ≤ last
    → leb (sext64 spp.tt_pgs) last ≡ true
out_of_device spp last l h = ground (arith, l.size, l.few_chs)

module _ {Q : Type 0} where
  -- A read of `k` logical pages from `lpn` on, on a device that is idle at the time `t`: the mapping
  -- stays, a mapped page costs a read latency at least, the pages cost one latency each at most, and
  -- a read of unmapped pages alone changes nothing.
  pub record PagesRead (k stime lpn maxlat t : ℕ) (s : Ssd Q) (r : ℕ × Ssd Q) : Type 0 where
    pub consistent : IsConsistent (r.1)
    pub same : SameMap s (r.1)
    pub idle : IsIdleAt (t + k * s.sp.pg_rd_lat) (r.1)
    pub grows : maxlat ≤ r.0
    pub bounded : maxlat + stime ≤ t → r.0 + stime ≤ t + k * s.sp.pg_rd_lat
    pub costs :
        (l : ℕ) → lpn ≤ l → l < lpn + k → mapped_ppa (s.maptbl l) ≡ true → s.sp.pg_rd_lat ≤ r.0
    pub free : ((l : ℕ) → lpn ≤ l → l < lpn + k → mapped_ppa (s.maptbl l) ≡ false) → r ≡ (maxlat, s)

  -- The first page of a read, and the rest.
  module _ (k stime lpn maxlat t : ℕ) (s : Ssd Q) (r1 r : ℕ × Ssd Q)
      (one : PageRead stime lpn maxlat t s r1)
      (rest : PagesRead k stime (suc lpn) (r1.0) (t + s.sp.pg_rd_lat) (r1.1) r) where
    same_lat : r1.1.sp.pg_rd_lat ≡ s.sp.pg_rd_lat
    same_lat = ap (λ (x : SsdParams). x.pg_rd_lat) one.same.sp

    total : t + s.sp.pg_rd_lat + k * r1.1.sp.pg_rd_lat ≡ t + suc k * s.sp.pg_rd_lat
    total = rw same_lat (omega (arith, suc_mul k s.sp.pg_rd_lat))

    same_mapped : (l : ℕ) → mapped_ppa (r1.1.maptbl l) ≡ mapped_ppa (s.maptbl l)
    same_mapped l = ap (λ (f : ℕ → Ppa). mapped_ppa (f l)) one.same.maptbl

    read_costs :
        (l : ℕ) → lpn ≤ l → l < lpn + suc k → mapped_ppa (s.maptbl l) ≡ true → s.sp.pg_rd_lat ≤ r.0
    read_costs l a b m = elim (Bool-cases (l == lpn)) [
      | inl e ↦ omega (
        arith,
        rest.grows,
        one.costs (subst (λ n. mapped_ppa (s.maptbl n) ≡ true) ((==_iff _ _).0 e) m),
      )
      | inr e ↦ rw⁻¹ same_lat (rest.costs l (ground arith) (omega arith) (same_mapped l ∙ m))
    ]

    read_free :
        ((l : ℕ) → lpn ≤ l → l < lpn + suc k → mapped_ppa (s.maptbl l) ≡ false) → r ≡ (maxlat, s)
    read_free f =
        rest.free (λ l a b. same_mapped l ∙ f l (omega arith) (omega arith))
        ∙ one.free (f lpn (omega arith) (omega arith))

    PagesRead-suc : PagesRead (suc k) stime lpn maxlat t s r
    PagesRead-suc = record {
      consistent = rest.consistent;
      same = SameMap-trans one.same rest.same;
      idle = λ q. omega (arith, rest.idle q, total);
      grows = omega (arith, one.grows, rest.grows);
      bounded = λ b. omega (arith, rest.bounded (one.bounded b), total);
      costs = read_costs;
      free = read_free;
    }

  pub read_pages-PagesRead :
      (k stime lpn maxlat t : ℕ) (s : Ssd Q)
      → IsConsistent s
      → lpn + k ≤ s.sp.tt_pgs
      → stime ≢ 0
      → stime ≤ t
      → IsIdleAt t s
      → s.sp.pg_rd_lat < 2 ^ 31
      → t + k * s.sp.pg_rd_lat < 2 ^ 64
      → PagesRead k stime lpn maxlat t s (read_pages k lpn stime (maxlat, s))
  unfolding read_pages
  read_pages-PagesRead zero stime lpn maxlat t s c i n le idle small fits = record {
    consistent = c;
    same = record { sp = refl; maptbl = refl; rmap = refl; status = λ p. refl };
    idle = λ q. omega (arith, idle q);
    grows = omega arith;
    bounded = λ b. omega arith;
    costs = λ l a b. absurd (omega arith);
    free = λ _. refl;
  }
  read_pages-PagesRead (suc k) stime lpn maxlat t s c i n le idle small fits =
      let r1 = read_page stime lpn (maxlat, s) in
      let more = suc_mul k s.sp.pg_rd_lat in
      let one =
        read_page-PageRead stime lpn maxlat t s c (omega arith) n le idle small (omega arith) in
      let sp = one.same.sp in
      let same_lat = ap (λ (x : SsdParams). x.pg_rd_lat) sp in
      let rest =
        read_pages-PagesRead k stime (suc lpn) (r1.0) (t + s.sp.pg_rd_lat) (r1.1) one.consistent
          (rw sp (omega arith)) n (omega arith) one.idle (rw same_lat small)
          (rw same_lat (omega arith)) in
      PagesRead-suc k stime lpn maxlat t s r1 _ one rest

  -- For a consistent device whose LUNs are all free at the time `t`, a request whose last sector
  -- is below 2^64 and whose last logical page is within the device, a start that is not 0 and not
  -- after `t`, a read latency below 2^31 and no overflow of the clock, ssd_read keeps the tables
  -- and the status of every page. Its result is at least a read latency if some logical page of
  -- the request is mapped, every LUN is free again after as many read latencies as the request has
  -- pages, counted from `t`, the result is within that time counted from the start, and it is 0
  -- with the device unchanged if no page of the request is mapped.
  pub ssd_read-PagesRead :
      (cmd : RwCommand) (start t : ℕ) (s : Ssd Q)
      → IsConsistent s
      → cmd.slba + (cmd.length + 1) < 2 ^ 64
      → end_lpn s.sp cmd < s.sp.tt_pgs
      → start ≢ 0
      → start ≤ t
      → IsIdleAt t s
      → s.sp.pg_rd_lat < 2 ^ 31
      → t + (end_lpn s.sp cmd + 1 - start_lpn s.sp cmd) * s.sp.pg_rd_lat < 2 ^ 64
      → PagesRead
          (end_lpn s.sp cmd + 1 - start_lpn s.sp cmd)
          start
          (start_lpn s.sp cmd)
          0
          t
          s
          (ssd_read cmd start s)
  unfolding ssd_read
  ssd_read-PagesRead cmd start t s c fit i n le idle small fits =
      let up = lpns_rise s.sp cmd c.room.layout.secs fit in
      let inside = in_device s.sp (end_lpn s.sp cmd) c.room.layout i in
      rw inside (
        read_pages-PagesRead _ start (start_lpn s.sp cmd) 0 t s c (omega arith) n le idle small
          fits)

  -- On a device with the layout of ssd_init_params, ssd_read of a request whose last logical page
  -- is not within the device returns 0 and changes nothing.
  pub ssd_read-outside :
      (cmd : RwCommand) (start : ℕ) (s : Ssd Q)
      → IsLayout s.sp
      → s.sp.tt_pgs ≤ end_lpn s.sp cmd
      → ssd_read cmd start s ≡ (0, s)
  unfolding ssd_read
  ssd_read-outside cmd start s l i = rw (out_of_device s.sp (end_lpn s.sp cmd) l i) refl
