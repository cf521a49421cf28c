-- ===== src/Driver/Examples.antt =====
-- Concrete runs of the driver's start.
use femu_on_virt.Base.{ℕ, ◌+◌, ◌≡◌, ◌⊎◌, Bool, true, false, none, some, [], ◌∷◌, ok, refl, arith}
use femu_on_virt.Ftl.Io.{ssd_read, ssd_write}
use femu_on_virt.Ftl.Sample.{Entries, sample, sample-IsPqueue}
use femu_on_virt.Ftl.Examples.{blank}
use femu_on_virt.Dispatch.Table.{init_proc_info}
use femu_on_virt.Dispatch.Commands.{Device}
use femu_on_virt.Admin.Identify.{id_ns}
use femu_on_virt.Driver.Config.{
  MemoryType, ram, reserved_kern, reserved, ModuleParams, NvmevConfig, load_configs,
}
use femu_on_virt.Driver.Loaded.{IsUsable, IsLoaded, load_configs-IsLoaded}
use femu_on_virt.Driver.Start.{nvmev_init}
use femu_on_virt.Driver.Started.{IsStarted, nvmev_init-IsStarted, last_block, last_block-unmapped}

-- A kernel that has reserved all that it is asked about.
abbrev mapped : ℕ → ℕ → MemoryType → Bool
mapped lo hi ram = false
mapped lo hi reserved_kern = false
mapped lo hi reserved = true

-- 4 GiB from 8 GiB on, the dispatcher on processor 3 and two workers.
abbrev params : ModuleParams
params = record {
  memmap_start = 8;
  memmap_size = 4096;
  perf = record {
    read_delay = 1;
    read_time = 1;
    read_trailing = 0;
    write_delay = 1;
    write_time = 1;
    write_trailing = 0;
    nr_io_units = 8;
    io_unit_shift = 12;
  };
  cpus = 3 ∷ 4 ∷ 5 ∷ [];
}

params-IsUsable : IsUsable mapped params
params-IsUsable = record {
  start = λ e. absurd (omega arith);
  size = omega arith;
  unused = refl;
  no_kernel = refl;
  held = refl;
  units = λ e. absurd (omega arith);
  shift = λ e. absurd (omega arith);
  read = λ e. absurd (omega arith);
  write = λ e. absurd (omega arith);
}

load_configs-IsLoaded_example :
    (IsUsable mapped params
      × (c : NvmevConfig) × (load_configs mapped params ≡ ok (some c))
      × IsLoaded params c)
    ⊎ ((¬ IsUsable mapped params) × (load_configs mapped params ≡ ok none))
load_configs-IsLoaded_example = load_configs-IsLoaded mapped params (omega arith) (omega arith)

nvmev_init-IsStarted_example :
    (c : NvmevConfig) × (d : Device Entries) × (nvmev_init mapped true params
        (λ i. init_proc_info)
        blank
      ≡ ok (some (c, d)))
    × IsStarted params c d
nvmev_init-IsStarted_example =
    nvmev_init-IsStarted mapped params (λ i. init_proc_info) blank params-IsUsable (omega arith)
      (omega arith) (omega arith) (omega arith)

-- The device that the start makes.
started :
    (c : NvmevConfig) × (d : Device Entries) × (nvmev_init mapped true params
        (λ i. init_proc_info)
        blank
      ≡ ok (some (c, d)))
    × IsStarted params c d
started =
    nvmev_init-IsStarted mapped params (λ i. init_proc_info) blank params-IsUsable (omega arith)
      (omega arith) (omega arith) (omega arith)

last_block-unmapped_example :
    ((last_block params).slba + 1 ≡ (id_ns (started.0).storage_size).nsze)
    × ((fuel start : ℕ)
        → (ssd_write fuel (last_block params) start (started.1).ssd ≡ ok (0, (started.1).ssd))
          × (ssd_read (last_block params) start (started.1).ssd ≡ (0, (started.1).ssd)))
last_block-unmapped_example =
    last_block-unmapped sample-IsPqueue params started.0 started.1 started.3 (omega arith)
      (omega arith) (λ e. absurd (omega arith))
