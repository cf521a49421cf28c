-- ===== src/Pci/Bars.antt =====
-- nvmev_proc_bars: the registers that the host writes, and the admin queue that they set up.
use femu_on_virt.Base.{
  ℕ, ◌+◌, ◌-◌, ◌*◌, ◌/◌, ◌%◌, ◌^◌, Option, none, some, Run, ok, fault, ◌>>=◌, ◌==◌, if◌then◌else◌,
}
use femu_on_virt.Admin.Types.{AdminQueue, Memory}

-- struct __nvme_bar and struct nvme_ctrl_regs, with the registers that the driver reads or writes.
pub record Bar : Type 0 where
  pub intms : ℕ
  pub intmc : ℕ
  pub cc : ℕ
  pub csts : ℕ
  pub nssr : ℕ
  pub aqa : ℕ
  pub asq : ℕ
  pub acq : ℕ

-- The registers, what the driver last saw of them, and the admin queue.
pub record Controller : Type 0 where
  pub bar : Bar
  pub old_bar : Bar
  pub admin_q : Option AdminQueue

-- The bit fields `cc.en`, `cc.shn`, `csts.rdy`, `aqa.asqs` and `aqa.acqs`.
unfoldable pub cc_en : ℕ → ℕ
cc_en cc = cc % 2

unfoldable pub cc_shn : ℕ → ℕ
cc_shn cc = cc / 2 ^ 14 % 4

unfoldable pub csts_rdy : ℕ → ℕ
csts_rdy csts = csts % 2

unfoldable pub aqa_asqs : ℕ → ℕ
aqa_asqs aqa = aqa % 2 ^ 12

unfoldable pub aqa_acqs : ℕ → ℕ
aqa_acqs aqa = aqa / 2 ^ 16 % 2 ^ 12

-- `csts.rdy = v` and `csts.shst = v`
unfoldable pub set_rdy : ℕ → ℕ → ℕ
set_rdy v csts = csts - csts % 2 + v

unfoldable pub set_shst : ℕ → ℕ → ℕ
set_shst v csts = csts - csts / 4 % 4 * 4 + v * 4

unfoldable pub new_admin_queue : ℕ → AdminQueue
unfolding aqa_asqs aqa_acqs
new_admin_queue aqa = record {
  phase = 1;
  sq_depth = aqa_asqs aqa + 1;
  cq_depth = aqa_acqs aqa + 1;
  cq_head = 0;
  nvme_sq = none;
  nvme_cq = none;
}

-- The plain copies of intms, intmc and nssr: each is made when the values differ.
unfoldable pub copy_registers : Controller → Controller
copy_registers c = record c {
  old_bar = record (c.old_bar) { intms = c.bar.intms; intmc = c.bar.intmc; nssr = c.bar.nssr };
}

unfoldable pub update_aqa : Controller → Controller
unfolding new_admin_queue
update_aqa c = if c.old_bar.aqa == c.bar.aqa then c else record c {
  old_bar = record (c.old_bar) { aqa = c.bar.aqa };
  admin_q = some (new_admin_queue c.bar.aqa);
}

unfoldable pub update_asq : Memory → Controller → Run Controller
update_asq mem c = if c.old_bar.asq == c.bar.asq then ok c else elim c.admin_q [
  | none ↦ fault
  | some q ↦
      let sq = λ (i : ℕ). mem.admin_commands (c.bar.asq / 2 ^ 12 + i / 64) (i % 64) in
      ok (record c {
        old_bar = record (c.old_bar) { asq = c.bar.asq };
        admin_q = some (record q { nvme_sq = some sq });
      })
]

unfoldable pub update_acq : Memory → Controller → Run Controller
update_acq mem c = if c.old_bar.acq == c.bar.acq then ok c else elim c.admin_q [
  | none ↦ fault
  | some q ↦
      let cq = λ (i : ℕ). mem.completions (c.bar.acq / 2 ^ 12 + i / 256) (i % 256) in
      ok (record c {
        old_bar = record (c.old_bar) { acq = c.bar.acq };
        admin_q = some (record q { nvme_cq = some cq });
      })
]

-- The end of the branch on `cc`: the shutdown status, and the copy.
unfoldable pub finish_cc : ℕ → Controller → Controller
unfolding set_rdy set_shst cc_shn
finish_cc rdy c =
    let csts = set_rdy rdy c.bar.csts in
    record c {
      bar = record (c.bar) { csts = if cc_shn c.bar.cc == 1 then set_shst 2 csts else csts };
      old_bar = record (c.old_bar) { cc = c.bar.cc };
    }

unfoldable pub update_cc : Controller → Controller
unfolding cc_en
update_cc c =
    if c.old_bar.cc == c.bar.cc
    then c
    else if cc_en c.bar.cc == 1
    then elim c.admin_q [ none ↦ c | some q ↦ finish_cc 1 c ]
    else finish_cc 0 c

unfoldable pub proc_bars : Memory → Controller → Run Controller
proc_bars mem c = update_asq mem (update_aqa (copy_registers c)) >>= λ c1.
    update_acq mem c1 >>= λ c2. ok (update_cc c2)
