-- ===== src/Driver/Start.antt =====
-- NVMeV_init. Whether the PCI bus could be created is a parameter; the mapping of the storage and the
-- threads are outside of the model.
use femu_on_virt.Base.{ℕ, ◌-◌, ◌%◌, Bool, Option, none, some, Run, ok, ◌>>=◌, if◌then◌else◌, ltb}
use femu_on_virt.Ftl.Types.{Ssd}
use femu_on_virt.Ftl.Victims.{Pqueue}
use femu_on_virt.Ftl.Init.{ssd_init}
use femu_on_virt.Dispatch.Table.{Procs, init_proc_info}
use femu_on_virt.Dispatch.Types.{ProcInfo}
use femu_on_virt.Dispatch.Commands.{Device}
use femu_on_virt.Driver.Config.{MemoryType, ModuleParams, NvmevConfig, load_configs}

-- NVMEV_IO_PROC_INIT: the tables of the workers. `kept` stands for what is behind them.
unfoldable pub io_proc_init : ℕ → (ℕ → ProcInfo) → Procs
io_proc_init nr_io_cpu kept = record {
  proc_info = λ i. if ltb i nr_io_cpu then init_proc_info else kept i;
  proc_turn = 0;
  nr_io_cpu = nr_io_cpu;
}

module _ {Q : Type 0} ⦃pq : Pqueue Q⦄ where
  -- The configuration and the device, or none for -EIO.
  unfoldable pub nvmev_init :
      (ℕ → ℕ → MemoryType → Bool)
      → Bool
      → ModuleParams
      → (ℕ → ProcInfo)
      → Ssd Q
      → Run (Option (NvmevConfig × Device Q))
  nvmev_init mapped pci_ok p kept ssd0 = load_configs mapped p >>= λ loaded. elim loaded [
    | none ↦ ok none
    | some c ↦ ssd_init c.cpu_nr_dispatcher c.storage_size ssd0 >>= λ r.
        let config = record c { storage_size = r.0 - r.0 % 4096 } in
        let device : Device Q = record {
          ssd = r.1;
          procs = io_proc_init config.nr_io_cpu kept;
          nr_io_units = config.perf.nr_io_units;
          io_unit_stat = λ i. 0;
        } in
        ok (if pci_ok then some (config, device) else none)
  ]
