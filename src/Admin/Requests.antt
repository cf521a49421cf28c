-- ===== src/Admin/Requests.antt =====
-- __nvmev_proc_admin_req and nvmev_proc_admin_sq. The interrupt at the end is outside of the model.
use femu_on_virt.Base.{ℕ, zero, suc, none, some, Run, ok, fault, ◌>>=◌, ◌==◌, slt32, if◌then◌else◌}
use femu_on_virt.Dispatch.Commands.{next_entry, num_proc}
use femu_on_virt.Admin.Types.{
  AdminCommand, AdminQueue, Memory, Queues, respond, set_result, advance_head,
}
use femu_on_virt.Admin.Queues.{create_cq, delete_cq, create_sq, delete_sq}
use femu_on_virt.Admin.Identify.{identify_ctrl, identify_namespace, get_log_page, set_features}

unfoldable pub async_event : ℕ → AdminCommand → AdminQueue × Queues → Run (AdminQueue × Queues)
async_event eid cmd (q, d) =
    respond eid cmd.command_id 0x105 q >>= λ q1. set_result 0 q1 >>= λ q2. ok (q2, d)

-- The switch on the opcode. Abort, get_features and what is not handled leave everything as it is.
unfoldable pub admin_command :
    Memory → ℕ → AdminCommand → AdminQueue × Queues → Run (AdminQueue × Queues)
admin_command mem eid cmd s =
    if cmd.opcode == 0x00
    then delete_sq eid cmd s
    else if cmd.opcode == 0x01
    then create_sq mem eid cmd s
    else if cmd.opcode == 0x02
    then get_log_page eid cmd s
    else if cmd.opcode == 0x04
    then delete_cq eid cmd s
    else if cmd.opcode == 0x05
    then create_cq mem eid cmd s
    else if cmd.opcode == 0x06
    then (if cmd.dword10 == 1 then identify_ctrl eid cmd s else identify_namespace eid cmd s)
    else if cmd.opcode == 0x09
    then set_features eid cmd s
    else if cmd.opcode == 0x0c
    then async_event eid cmd s
    else ok s

unfoldable pub proc_admin_req : Memory → ℕ → AdminQueue × Queues → Run (AdminQueue × Queues)
proc_admin_req mem eid (q, d) = elim q.nvme_sq [
  | none ↦ fault
  | some sq ↦ admin_command mem eid (sq eid) (q, d) >>= λ s. ok (advance_head s.0, s.1)
]

-- The loop of nvmev_proc_admin_sq: `k` commands are left, the next one at `curr`.
unfoldable pub proc_admin_reqs : Memory → ℕ → ℕ → AdminQueue × Queues → Run (AdminQueue × Queues)
proc_admin_reqs mem zero curr s = ok s
proc_admin_reqs mem (suc k) curr s =
    proc_admin_req mem curr s >>= λ s'. proc_admin_reqs mem k (next_entry s'.0.sq_depth curr) s'

unfoldable pub proc_admin_sq : Memory → ℕ → ℕ → AdminQueue × Queues → Run (AdminQueue × Queues)
proc_admin_sq mem new_db old_db (q, d) =
    let n = num_proc q.sq_depth new_db old_db in
    proc_admin_reqs mem (if slt32 n 0 then 0 else n) old_db (q, d)
