-- ===== src/Pci/Examples.antt =====
-- Concrete runs of the PCI device.
use femu_on_virt.Base.{
  ℕ, ◌+◌, ◌*◌, ◌/◌, ◌%◌, ◌^◌, ◌≤◌, ◌<◌, ◌≡◌, ◌⊎◌, refl, some, none, false, ok, fault, ◌==◌,
  if◌then◌else◌, digit, arith,
}
use femu_on_virt.Admin.Types.{Memory}
use femu_on_virt.Pci.Bars.{
  Bar, Controller, csts_rdy, proc_bars, copy_registers, update_aqa, update_asq, update_acq,
  update_cc, finish_cc, set_rdy, set_shst, cc_en, cc_shn, new_admin_queue, aqa_asqs, aqa_acqs,
}
use femu_on_virt.Pci.Ready.{IsSound, expected_rdy}
use femu_on_virt.Pci.Machine.{System, IsReset, writes, start, extend, Reach-IsReady}
use femu_on_virt.Pci.Faults.{IsPremature, proc_bars_faults}
use femu_on_virt.Pci.Config.{Space, pci_read, pci_write, write_mask}
use femu_on_virt.Pci.Space.{pci_write-pci_read}

abbrev memory : Memory
memory = record {
  admin_commands =
      λ pfn i. record { opcode = 0; command_id = i; prp1 = 0; dword10 = 0; dword11 = 0 };
  commands = λ pfn i. record { opcode = 2; command_id = i; rw = record { slba = i; length = 0 } };
  completions =
      λ pfn i. record { result = 0; rsvd = 0; command_id = 0; sq_id = 0; sq_head = 0; status = 0 };
}

abbrev zeros : Bar
zeros = record { intms = 0; intmc = 0; cc = 0; csts = 0; nssr = 0; aqa = 0; asq = 0; acq = 0 }

abbrev reset : System
reset = record {
  controller = record { bar = zeros; old_bar = zeros; admin_q = none };
  queues = record {
    nr_sq = 0;
    nr_cq = 0;
    sqes = λ i. none;
    cqes = λ i. none;
    dbs = λ i. 0;
    old_dbs = λ i. 0;
    storage_size = 2 ^ 30;
    pages = λ i. none;
  };
}

-- The host sets up an admin queue of 32 entries, and enables the controller.
abbrev wanted : Bar
wanted = record zeros { cc = 1; aqa = 31 * 2 ^ 16 + 31; asq = 2 ^ 20; acq = 2 ^ 21 }

reset-IsReset : IsReset reset
unfolding csts_rdy
reset-IsReset = record { csts = refl; cc = refl; admin_q = refl }

abbrev written : System
written = record reset { controller = record (reset.controller) { bar = wanted } }

-- The driver after its poll.
abbrev polled : Controller
unfolding set_rdy new_admin_queue aqa_asqs aqa_acqs
polled = record {
  bar = record wanted { csts = set_rdy 1 0 };
  old_bar = wanted;
  admin_q = some (record (new_admin_queue wanted.aqa) {
    nvme_sq = some (λ i. memory.admin_commands (wanted.asq / 2 ^ 12 + i / 64) (i % 64));
    nvme_cq = some (λ i. memory.completions (wanted.acq / 2 ^ 12 + i / 256) (i % 256));
  });
}

poll : proc_bars memory written.controller ≡ ok polled
unfolding proc_bars copy_registers update_aqa update_asq update_acq update_cc finish_cc set_rdy
    set_shst cc_en cc_shn new_admin_queue aqa_asqs aqa_acqs polled
poll = refl

Reach-IsReady_example :
    IsSound written.controller
    × (csts_rdy polled.bar.csts ≡ expected_rdy polled.admin_q polled.bar.cc)
Reach-IsReady_example =
    Reach-IsReady memory reset written polled reset-IsReset
      (extend start (writes reset wanted refl)) poll

-- The same without the size of the queue.
abbrev early : Controller
early = record (reset.controller) { bar = record zeros { asq = 2 ^ 20 } }

proc_bars_faults_example :
    (IsPremature early × (proc_bars memory early ≡ fault))
    ⊎ ((¬ IsPremature early) × (c' : Controller) × (proc_bars memory early ≡ ok c'))
proc_bars_faults_example = proc_bars_faults memory early

-- The base address: the host writes ones to find the size.
abbrev space : Space
space = record { bytes = λ i. 7; msix_enabled = false }

pci_write-pci_read_example :
    (old r : ℕ) × (pci_read 0 0x10 4 0 space ≡ some old)
    × (pci_read 0 0x10 4 0 (pci_write 0 0x10 4 0xFFFFFFFF 0 space) ≡ some r)
    × ((k : ℕ)
        → k < 8 * 4
        → digit k r ≡ (if digit k (write_mask 0x10) == 1 then digit k 0xFFFFFFFF else digit k old))
    × ((j : ℕ)
        → (j < 0x10) ⊎ (0x10 + 4 ≤ j)
        → (pci_write 0 0x10 4 0xFFFFFFFF 0 space).bytes j ≡ space.bytes j)
pci_write-pci_read_example = pci_write-pci_read 0 0x10 4 0xFFFFFFFF 0 0 space (omega arith)
