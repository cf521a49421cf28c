-- ===== src/Driver/Loaded.antt =====
-- Which parameters the module accepts, and the configuration that it makes of them.
use femu_on_virt.Base.{
  ℕ, zero, suc, ◌+◌, ◌-◌, ◌*◌, ◌^◌, ◌≤◌, ◌<◌, ◌≡◌, ◌≢◌, ◌⊎◌, inl, inr, refl, ◌∙◌, ap, Bool,
  Bool-cases, true, false, none, some, List, [], ◌∷◌, length, get_elem?, ok, lt→ltb, update,
  update-at, update-other, w64, add64, minus_one32, arith,
}
use mathlib.Core.Option.{some-injective}
use femu_on_virt.Driver.Config.{
  MemoryType, ram, reserved_kern, reserved, ModuleParams, Verdict, valid, einval, eperm,
  resv_start_bytes, resv_end_bytes, negative, validate_configs, NvmevConfig, load_cpus,
  load_configs,
}

-- What a usable configuration is: a region of at least 2 MiB that the kernel has reserved and does not
-- use, and a timing model with no zero in it.
pub record IsUsable (mapped : ℕ → ℕ → MemoryType → Bool) (p : ModuleParams) : Type 0 where
  pub start : p.memmap_start ≢ 0
  pub size : 1 < p.memmap_size
  pub unused : mapped (resv_start_bytes p) (resv_end_bytes p) ram ≡ false
  pub no_kernel : mapped (resv_start_bytes p) (resv_end_bytes p) reserved_kern ≡ false
  pub held : mapped (resv_start_bytes p) (resv_end_bytes p) reserved ≡ true
  pub units : p.perf.nr_io_units ≢ 0
  pub shift : p.perf.io_unit_shift ≢ 0
  pub read : p.perf.read_time ≢ 0
  pub write : p.perf.write_time ≢ 0

validate-valid :
    (mapped : ℕ → ℕ → MemoryType → Bool) (p : ModuleParams)
    → IsUsable mapped p
    → validate_configs mapped p ≡ valid
unfolding validate_configs
validate-valid mapped p u =
    ground
      (arith, u.start, u.size, u.unused, u.no_kernel, u.held, u.units, u.shift, u.read, u.write)

valid-IsUsable :
    (mapped : ℕ → ℕ → MemoryType → Bool) (p : ModuleParams)
    → validate_configs mapped p ≡ valid
    → IsUsable mapped p
unfolding validate_configs
valid-IsUsable mapped p h = record {
  start = ground (arith, h);
  size = ground (arith, h);
  unused = ground (arith, h);
  no_kernel = ground (arith, h);
  held = ground (arith, h);
  units = ground (arith, h);
  shift = ground (arith, h);
  read = ground (arith, h);
  write = ground (arith, h);
}

-- The fields that the list of processors does not touch.
pub record SameMemory (c c' : NvmevConfig) : Type 0 where
  pub memmap_start : c'.memmap_start ≡ c.memmap_start
  pub memmap_size : c'.memmap_size ≡ c.memmap_size
  pub storage_start : c'.storage_start ≡ c.storage_start
  pub storage_size : c'.storage_size ≡ c.storage_size
  pub perf : c'.perf ≡ c.perf

-- The workers' processors, behind those that are there.
record Workers (cpus : List ℕ) (c c' : NvmevConfig) : Type 0 where
  same : SameMemory c c'
  dispatcher : c'.cpu_nr_dispatcher ≡ c.cpu_nr_dispatcher
  count : c'.nr_io_cpu ≡ c.nr_io_cpu + length cpus
  before : (j : ℕ) → j < c.nr_io_cpu → c'.cpu_nr_proc_io j ≡ c.cpu_nr_proc_io j
  each : (i cpu : ℕ) → get_elem? cpus i ≡ some cpu → c'.cpu_nr_proc_io (c.nr_io_cpu + i) ≡ cpu

next_each :
    (cpu : ℕ) (cpus : List ℕ) (c c' : NvmevConfig)
    → Workers cpus
        (record c {
          cpu_nr_proc_io = update c.cpu_nr_proc_io c.nr_io_cpu cpu;
          nr_io_cpu = c.nr_io_cpu + 1;
        })
        c'
    → (i x : ℕ) → get_elem? (cpu ∷ cpus) i ≡ some x
    → c'.cpu_nr_proc_io (c.nr_io_cpu + i) ≡ x
next_each cpu cpus c c' w zero x e =
    ap c'.cpu_nr_proc_io (omega arith)
    ∙ w.before c.nr_io_cpu (omega arith)
    ∙ update-at c.cpu_nr_proc_io c.nr_io_cpu cpu
    ∙ some-injective _ _ e
next_each cpu cpus c c' w (suc i) x e = ap c'.cpu_nr_proc_io (omega arith) ∙ w.each i x e

load_others :
    (cpus : List ℕ) (c : NvmevConfig)
    → c.nr_io_cpu + length cpus ≤ 32
    → (c' : NvmevConfig) × (load_cpus false cpus c ≡ ok c') × Workers cpus c c'
unfolding load_cpus
load_others [] c h = (
  c,
  refl,
  record {
    same = record {
      memmap_start = refl;
      memmap_size = refl;
      storage_start = refl;
      storage_size = refl;
      perf = refl;
    };
    dispatcher = refl;
    count = omega arith;
    before = λ j lt. refl;
    each = λ i cpu e. cc e;
  },
)
load_others (cpu ∷ cpus) c h =
    let n = c.nr_io_cpu in
    let c1 = record c { cpu_nr_proc_io = update c.cpu_nr_proc_io n cpu; nr_io_cpu = n + 1 } in
    let rest = load_others cpus c1 (omega arith) in
    let w = rest.2 in
    (
      rest.0,
      rw (lt→ltb n 32 (omega arith)) rest.1,
      record {
        same = record {
          memmap_start = w.same.memmap_start;
          memmap_size = w.same.memmap_size;
          storage_start = w.same.storage_start;
          storage_size = w.same.storage_size;
          perf = w.same.perf;
        };
        dispatcher = w.dispatcher;
        count = omega (arith, w.count);
        before =
            λ j lt. w.before j (omega arith) ∙ update-other c.cpu_nr_proc_io n cpu j (omega arith);
        each = next_each cpu cpus c rest.0 w;
      },
    )

-- The configuration for usable parameters.
pub record IsLoaded (p : ModuleParams) (c : NvmevConfig) : Type 0 where
  pub memmap_start : c.memmap_start ≡ p.memmap_start * 2 ^ 30
  pub memmap_size : c.memmap_size ≡ p.memmap_size * 2 ^ 20
  pub begins : c.storage_start ≡ c.memmap_start + 2 ^ 20
  pub ends : c.storage_start + c.storage_size ≡ c.memmap_start + c.memmap_size
  pub perf : c.perf ≡ p.perf
  pub dispatcher : (cpu : ℕ) → get_elem? p.cpus 0 ≡ some cpu → c.cpu_nr_dispatcher ≡ cpu
  pub count : c.nr_io_cpu ≡ length p.cpus - 1
  pub worker : (i cpu : ℕ) → get_elem? p.cpus (suc i) ≡ some cpu → c.cpu_nr_proc_io i ≡ cpu

abbrev unloaded : ModuleParams → NvmevConfig
unloaded p = record {
  memmap_start = w64 (p.memmap_start * 2 ^ 30);
  memmap_size = w64 (p.memmap_size * 2 ^ 20);
  storage_start = add64 (w64 (p.memmap_start * 2 ^ 30)) (2 ^ 20);
  storage_size = w64 ((p.memmap_size - 1) * 2 ^ 20);
  perf = p.perf;
  cpu_nr_dispatcher = minus_one32;
  nr_io_cpu = 0;
  cpu_nr_proc_io = λ i. 0;
}

-- The memory of a configuration with the fields of `unloaded`.
memory_lem :
    (p : ModuleParams) (c : NvmevConfig)
    → 1 < p.memmap_size
    → p.memmap_start * 2 ^ 30 + p.memmap_size * 2 ^ 20 < 2 ^ 64
    → SameMemory (unloaded p) c
    → (c.memmap_start ≡ p.memmap_start * 2 ^ 30)
      × (c.memmap_size ≡ p.memmap_size * 2 ^ 20)
      × (c.storage_start ≡ c.memmap_start + 2 ^ 20)
      × (c.storage_start + c.storage_size ≡ c.memmap_start + c.memmap_size)
memory_lem p c two fits s =
    omega (arith, s.memmap_start, s.memmap_size, s.storage_start, s.storage_size)

all_cpus :
    (p : ModuleParams) (cpus : List ℕ)
    → length cpus ≤ 33
    → (c : NvmevConfig) × (load_cpus true cpus (unloaded p) ≡ ok c)
      × SameMemory (unloaded p) c
      × ((cpu : ℕ) → get_elem? cpus 0 ≡ some cpu → c.cpu_nr_dispatcher ≡ cpu)
      × (c.nr_io_cpu ≡ length cpus - 1)
      × ((i cpu : ℕ) → get_elem? cpus (suc i) ≡ some cpu → c.cpu_nr_proc_io i ≡ cpu)
unfolding load_cpus
all_cpus p [] h = (
  unloaded p,
  refl,
  record {
    memmap_start = refl;
    memmap_size = refl;
    storage_start = refl;
    storage_size = refl;
    perf = refl;
  },
  λ cpu e. cc e,
  omega arith,
  λ i cpu e. cc e,
)
all_cpus p (cpu ∷ cpus) h =
    let l = load_others cpus (record (unloaded p) { cpu_nr_dispatcher = cpu }) (omega arith) in
    let w = l.2 in
    (
      l.0,
      l.1,
      record {
        memmap_start = w.same.memmap_start;
        memmap_size = w.same.memmap_size;
        storage_start = w.same.storage_start;
        storage_size = w.same.storage_size;
        perf = w.same.perf;
      },
      λ x e. w.dispatcher ∙ some-injective _ _ e,
      omega (arith, w.count),
      λ i x e. ap l.0.cpu_nr_proc_io (omega arith) ∙ w.each i x e,
    )

not-negative : (v : Verdict) → negative v ≡ false → v ≡ valid
not-negative valid e = refl
not-negative einval e = cc
not-negative eperm e = cc

pub usable-IsLoaded :
    (mapped : ℕ → ℕ → MemoryType → Bool) (p : ModuleParams)
    → IsUsable mapped p
    → p.memmap_start * 2 ^ 30 + p.memmap_size * 2 ^ 20 < 2 ^ 64
    → length p.cpus ≤ 33
    → (c : NvmevConfig) × (load_configs mapped p ≡ ok (some c)) × IsLoaded p c
unfolding load_configs
usable-IsLoaded mapped p u fits few =
    let l = all_cpus p p.cpus few in
    let m = memory_lem p l.0 u.size fits l.2 in
    (
      l.0,
      rw (validate-valid mapped p u, l.1) refl,
      record {
        memmap_start = m.0;
        memmap_size = m.1;
        begins = m.2;
        ends = m.3;
        perf = l.2.perf;
        dispatcher = l.3;
        count = l.4;
        worker = l.5;
      },
    )

rejected_lem :
    (mapped : ℕ → ℕ → MemoryType → Bool) (p : ModuleParams)
    → negative (validate_configs mapped p) ≡ true
    → load_configs mapped p ≡ ok none
unfolding load_configs
rejected_lem mapped p e = rw e refl

-- For parameters whose region ends below 2^64 bytes and that name at most 33 processors:
-- __load_configs accepts them if and only if they are usable, and then the storage area begins 1
-- MiB after the reserved region and ends with it, the timing model is that of the parameters, the
-- first processor of the list runs the dispatcher and the others, in their order, the workers.
pub load_configs-IsLoaded :
    (mapped : ℕ → ℕ → MemoryType → Bool) (p : ModuleParams)
    → p.memmap_start * 2 ^ 30 + p.memmap_size * 2 ^ 20 < 2 ^ 64
    → length p.cpus ≤ 33
    → (IsUsable mapped p × (c : NvmevConfig) × (load_configs mapped p ≡ ok (some c)) × IsLoaded p c)
      ⊎ ((¬ IsUsable mapped p) × (load_configs mapped p ≡ ok none))
load_configs-IsLoaded mapped p fits few = elim (Bool-cases (negative (validate_configs mapped p))) [
  | inr passed ↦
      let u = valid-IsUsable mapped p (not-negative _ passed) in
      let l = usable-IsLoaded mapped p u fits few in inl (u, l.0, l.1, l.2)
  | inl rejected ↦
      inr (
        λ u. cc (rejected, ap negative (validate-valid mapped p u)),
        rejected_lem mapped p rejected,
      )
]
