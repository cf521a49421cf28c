-- ===== src/Driver/Started.antt =====
-- The device after NVMeV_init: its storage, its translation layer, and the blocks that the latter lacks.
use femu_on_virt.Base.{
  ℕ, ◌+◌, ◌-◌, ◌*◌, ◌/◌, ◌%◌, ◌^◌, ◌≤◌, ◌<◌, ◌≡◌, ◌≢◌, refl, sym, ◌∙◌, ap, subst, Bool, true, some,
  length, ok, lt→ltb, w64, arith,
}
use femu_on_virt.Ftl.Types.{Ssd, SsdParams}
use femu_on_virt.Ftl.Victims.{Pqueue, IsPqueue}
use femu_on_virt.Ftl.Params.{ssd_init_params}
use femu_on_virt.Ftl.Init.{ssd_init, init_nchs}
use femu_on_virt.Ftl.Io.{RwCommand, ssd_read, ssd_write, end_lpn}
use femu_on_virt.Ftl.Mapping.{IsConsistent}
use femu_on_virt.Ftl.Fresh.{IsFresh, fresh-IsLayout, ssd_init-IsConsistent}
use femu_on_virt.Ftl.Request.{ssd_write-outside}
use femu_on_virt.Ftl.Read.{ssd_read-outside}
use femu_on_virt.Dispatch.Types.{ProcInfo}
use femu_on_virt.Dispatch.Table.{init_proc_info}
use femu_on_virt.Dispatch.Commands.{Device}
use femu_on_virt.Admin.Identify.{id_ns, lba_format}
use femu_on_virt.Driver.Config.{MemoryType, ModuleParams, NvmevConfig, load_configs}
use femu_on_virt.Driver.Loaded.{IsUsable, IsLoaded, usable-IsLoaded}
use femu_on_virt.Driver.Start.{io_proc_init, nvmev_init}

-- The channels that the storage of a configuration gives.
abbrev pub channels : ModuleParams → ℕ
channels p = (p.memmap_size - 1) / 2048

pub record IsStarted {Q : Type 0} (p : ModuleParams) (c : NvmevConfig) (d : Device Q) : Type 0 where
  pub loaded : IsLoaded p c
  pub fresh : IsFresh (channels p) d.ssd
  pub consistent : IsConsistent d.ssd
  pub workers : d.procs.nr_io_cpu ≡ c.nr_io_cpu
  pub table : (i : ℕ) → i < c.nr_io_cpu → d.procs.proc_info i ≡ init_proc_info

storage_bytes :
    (p : ModuleParams) (c : NvmevConfig)
    → IsLoaded p c
    → c.storage_size ≡ (p.memmap_size - 1) * 2 ^ 20
storage_bytes p c l = omega (arith, l.begins, l.ends, l.memmap_size)

channels-eq :
    (p : ModuleParams)
    → p.memmap_size ≤ 264192
    → init_nchs ((p.memmap_size - 1) * 2 ^ 20) ≡ channels p
unfolding init_nchs
channels-eq p h = ground arith

-- The size that ssd_init returns, cut to pages, is the size it got.
whole_pages :
    (n : ℕ)
    → n ≤ 264192
    → w64 (n * 2 ^ 20 * 100) / 100 - w64 (n * 2 ^ 20 * 100) / 100 % 4096 ≡ n * 2 ^ 20
whole_pages n h = omega arith

table_init :
    (n : ℕ) (kept : ℕ → ProcInfo) (i : ℕ)
    → i < n
    → (io_proc_init n kept).proc_info i ≡ init_proc_info
unfolding io_proc_init
table_init n kept i lt = rw (lt→ltb i n lt) refl

table_count : (n : ℕ) (kept : ℕ → ProcInfo) → (io_proc_init n kept).nr_io_cpu ≡ n
unfolding io_proc_init
table_count n kept = refl

kept_size :
    (c : NvmevConfig) (p : ModuleParams) (n : ℕ)
    → n ≡ c.storage_size
    → IsLoaded p c
    → IsLoaded p (record c { storage_size = n })
kept_size c p n e l = record {
  memmap_start = l.memmap_start;
  memmap_size = l.memmap_size;
  begins = l.begins;
  ends = omega (arith, l.ends, e);
  perf = l.perf;
  dispatcher = l.dispatcher;
  count = l.count;
  worker = l.worker;
}

beyond :
    (n : ℕ) (sp : SsdParams)
    → sp ≡ ssd_init_params (n / 2048)
    → 2048 ≤ n
    → n < 264192
    → n % 2048 ≢ 0
    → sp.tt_pgs ≤ end_lpn sp (record { slba = n * 2048 - 1; length = 0 })
unfolding ssd_init_params end_lpn
beyond n sp e more few odd = rw e (omega (arith, more, few, odd))

last_inside :
    (n storage_size : ℕ)
    → storage_size ≡ n * 2 ^ 20
    → 0 < n
    → n * 2048 - 1 + 1 ≡ (id_ns storage_size).nsze
unfolding id_ns lba_format
last_inside n storage_size e h = ground (arith, e, h)

-- The one-block command for the last block of the storage.
abbrev pub last_block : ModuleParams → RwCommand
last_block p = record { slba = (p.memmap_size - 1) * 2048 - 1; length = 0 }

module _ {Q : Type 0} ⦃pq : Pqueue Q⦄ where
  -- The configuration is loaded, and the translation layer starts on its storage.
  init-eq :
      (mapped : ℕ → ℕ → MemoryType → Bool) (p : ModuleParams) (kept : ℕ → ProcInfo)
      (ssd0 ssd1 : Ssd Q) (c : NvmevConfig) (space : ℕ)
      → load_configs mapped p ≡ ok (some c)
      → ssd_init c.cpu_nr_dispatcher c.storage_size ssd0 ≡ ok (space, ssd1)
      → nvmev_init mapped true p kept ssd0
        ≡ ok (
            some (
              record c { storage_size = space - space % 4096 },
              record {
                ssd = ssd1;
                procs = io_proc_init c.nr_io_cpu kept;
                nr_io_units = c.perf.nr_io_units;
                io_unit_stat = λ i. 0;
              },
            ))
  unfolding nvmev_init
  init-eq mapped p kept ssd0 ssd1 c space e h = rw e (rw h refl)

  -- For usable parameters with 2049 MiB to 258 GiB of memory that ends below 2^64 bytes, with at
  -- most 33 processors, and a PCI bus that can be created, NVMeV_init succeeds: the configuration
  -- is the one of the parameters, with the whole area behind the first MiB as storage; the
  -- translation layer is consistent and fresh, with one channel for each 2 GiB of the storage; and
  -- each worker has an empty table.
  pub nvmev_init-IsStarted :
      (mapped : ℕ → ℕ → MemoryType → Bool) (p : ModuleParams) (kept : ℕ → ProcInfo) (ssd0 : Ssd Q)
      → IsUsable mapped p
      → 2049 ≤ p.memmap_size
      → p.memmap_size ≤ 264192
      → p.memmap_start * 2 ^ 30 + p.memmap_size * 2 ^ 20 < 2 ^ 64
      → length p.cpus ≤ 33
      → (c : NvmevConfig) × (d : Device Q) × (nvmev_init mapped true p kept ssd0 ≡ ok (some (c, d)))
        × IsStarted p c d
  nvmev_init-IsStarted mapped p kept ssd0 u some_mib few_mib fits few_cpus =
      let l = usable-IsLoaded mapped p u fits few_cpus in
      let c = l.0 in
      let bytes = storage_bytes p c l.2 in
      let chs : init_nchs c.storage_size ≡ channels p =
        ap init_nchs bytes ∙ channels-eq p few_mib in
      let s =
        ssd_init-IsConsistent c.cpu_nr_dispatcher c.storage_size ssd0 (omega (arith, chs, some_mib))
          (omega (arith, chs, few_mib)) in
      let space = w64 (c.storage_size * 100) / 100 in
      let size : space - space % 4096 ≡ c.storage_size =
        ap (λ n. w64 (n * 100) / 100 - w64 (n * 100) / 100 % 4096) bytes
        ∙ whole_pages (p.memmap_size - 1) (omega (arith, few_mib))
        ∙ sym bytes in
      (
        _,
        _,
        init-eq mapped p kept ssd0 s.0 c space l.1 s.1,
        record {
          loaded = kept_size c p (space - space % 4096) size l.2;
          fresh = subst (λ n. IsFresh n s.0) chs s.2;
          consistent = s.3;
          workers = table_count c.nr_io_cpu kept;
          table = table_init c.nr_io_cpu kept;
        },
      )

  -- For a started device with 2 GiB to 258 GiB of memory whose storage is not a multiple of 2 GiB:
  -- last_block, a command for one block, is for the last block of the namespace that identify
  -- announces, but the logical page of this block is not within the translation layer, so that a
  -- write and a read of the block, whatever the fuel and the start, return the latency 0 and
  -- change nothing.
  pub last_block-unmapped :
      IsPqueue pq
      → (p : ModuleParams) (c : NvmevConfig) (d : Device Q) → IsStarted p c d
      → 2049 ≤ p.memmap_size
      → p.memmap_size ≤ 264192
      → (p.memmap_size - 1) % 2048 ≢ 0
      → ((last_block p).slba + 1 ≡ (id_ns c.storage_size).nsze)
        × ((fuel start : ℕ)
            → (ssd_write fuel (last_block p) start d.ssd ≡ ok (0, d.ssd))
              × (ssd_read (last_block p) start d.ssd ≡ (0, d.ssd)))
  last_block-unmapped laws p c d s some_mib few_mib odd =
      let layout =
        fresh-IsLayout (channels p) d.ssd s.fresh (omega (arith, some_mib))
          (omega (arith, few_mib)) in
      let out = beyond (p.memmap_size - 1) d.ssd.sp s.fresh.sp (omega arith) (omega arith) odd in
      (
        last_inside (p.memmap_size - 1) c.storage_size (storage_bytes p c s.loaded)
            (omega (arith, some_mib)),
        λ fuel start. (
          ssd_write-outside laws fuel (last_block p) start d.ssd layout out,
          ssd_read-outside (last_block p) start d.ssd layout out,
        ),
      )
