-- ===== src/Driver/Config.antt =====
-- __validate_configs and __load_configs. The memory map of the kernel is a parameter: `mapped lo hi t`
-- is e820__mapped_any. So is the list of the numbers in `cpus`, which strsep and simple_strtol give.
use femu_on_virt.Base.{
  ℕ, ◌+◌, ◌-◌, ◌*◌, ◌^◌, Bool, true, false, ◌||◌, not, Option, none, some, List, [], ◌∷◌, Run, ok,
  fault, ◌>>=◌, ◌==◌, ltb, if◌then◌else◌, update, w64, add64, sub64, minus_one32,
}
use femu_on_virt.Dispatch.Units.{Config}

-- The types of memory that the code asks for.
pub data MemoryType : Type 0 where
  ram : MemoryType
  reserved_kern : MemoryType
  reserved : MemoryType

-- The parameters of the module.
pub record ModuleParams : Type 0 where
  pub memmap_start : ℕ
  pub memmap_size : ℕ
  pub perf : Config
  pub cpus : List ℕ

-- 0, -EINVAL and -EPERM
pub data Verdict : Type 0 where
  valid : Verdict
  einval : Verdict
  eperm : Verdict

abbrev pub resv_start_bytes : ModuleParams → ℕ
resv_start_bytes p = w64 (p.memmap_start * 2 ^ 30)

abbrev pub resv_end_bytes : ModuleParams → ℕ
resv_end_bytes p = sub64 (add64 (resv_start_bytes p) (w64 (p.memmap_size * 2 ^ 20))) 1

-- `verdict < 0`
abbrev pub negative : Verdict → Bool
negative valid = false
negative einval = true
negative eperm = true

unfoldable pub validate_configs : (ℕ → ℕ → MemoryType → Bool) → ModuleParams → Verdict
validate_configs mapped p =
    if p.memmap_start == 0
    then einval
    else if p.memmap_size == 0
    then einval
    else if p.memmap_size == 1
    then einval
    else if mapped (resv_start_bytes p) (resv_end_bytes p) ram
        || mapped (resv_start_bytes p) (resv_end_bytes p) reserved_kern
    then eperm
    else if not (mapped (resv_start_bytes p) (resv_end_bytes p) reserved)
    then eperm
    else if (p.perf.nr_io_units == 0) || (p.perf.io_unit_shift == 0)
    then einval
    else if p.perf.read_time == 0
    then einval
    else if p.perf.write_time == 0
    then einval
    else valid

-- struct nvmev_config; the fields of the timing model are `perf`.
pub record NvmevConfig : Type 0 where
  pub memmap_start : ℕ
  pub memmap_size : ℕ
  pub storage_start : ℕ
  pub storage_size : ℕ
  pub perf : Config
  pub cpu_nr_dispatcher : ℕ
  pub nr_io_cpu : ℕ
  pub cpu_nr_proc_io : ℕ → ℕ

-- The loop over `cpus`. The 33rd worker would be written behind the array of 32.
unfoldable pub load_cpus : Bool → List ℕ → NvmevConfig → Run NvmevConfig
load_cpus first [] config = ok config
load_cpus true (cpu_nr ∷ cpus) config =
    load_cpus false cpus (record config { cpu_nr_dispatcher = cpu_nr })
load_cpus false (cpu_nr ∷ cpus) config =
    let rest = load_cpus false cpus (record config {
      cpu_nr_proc_io = update config.cpu_nr_proc_io config.nr_io_cpu cpu_nr;
      nr_io_cpu = config.nr_io_cpu + 1;
    }) in
    if ltb config.nr_io_cpu 32 then rest else fault

-- The configuration, or none for `false`.
unfoldable pub load_configs : (ℕ → ℕ → MemoryType → Bool) → ModuleParams → Run (Option NvmevConfig)
load_configs mapped p =
    let config : NvmevConfig = record {
      memmap_start = w64 (p.memmap_start * 2 ^ 30);
      memmap_size = w64 (p.memmap_size * 2 ^ 20);
      storage_start = add64 (w64 (p.memmap_start * 2 ^ 30)) (2 ^ 20);
      storage_size = w64 ((p.memmap_size - 1) * 2 ^ 20);
      perf = p.perf;
      cpu_nr_dispatcher = minus_one32;
      nr_io_cpu = 0;
      cpu_nr_proc_io = λ i. 0;
    } in
    if negative (validate_configs mapped p)
    then ok none
    else load_cpus true p.cpus config >>= λ c. ok (some c)
