-- ===== src/Admin/Types.antt =====
-- The structures of nvmev.h and nvme.h that admin.c works on. A command is its double words: the
-- members of the union `struct nvme_command` name the halves of double words 10 and 11.
use femu_on_virt.Base.{
  ℕ, ◌*◌, ◌/◌, ◌%◌, ◌^◌, Option, Bool, not, ◌==◌, Run, ok, fault, if◌then◌else◌, update, inc32,
}
use Prim.Native.Nat.{bit_or}
use femu_on_virt.Dispatch.Types.{Completion, CompletionQueue}
use femu_on_virt.Dispatch.Commands.{IoCommand, SubmissionQueue}

pub record AdminCommand : Type 0 where
  pub opcode : ℕ
  pub command_id : ℕ
  pub prp1 : ℕ
  pub dword10 : ℕ
  pub dword11 : ℕ

-- The 16-bit halves of double word 10 (a queue's id and size) and of 11 (its flags, and the vector
-- of a completion queue or the completion queue of a submission queue).
unfoldable pub low : ℕ → ℕ
low dword = dword % 2 ^ 16

unfoldable pub high : ℕ → ℕ
high dword = dword / 2 ^ 16 % 2 ^ 16

-- `flags & (1 << b)` as a truth value.
unfoldable pub flag : ℕ → ℕ → Bool
flag b flags = not (flags / 2 ^ b % 2 == 0)

-- struct nvmev_admin_queue. The rings are NULL before their addresses are set.
pub record AdminQueue : Type 0 where
  pub phase : ℕ
  pub sq_depth : ℕ
  pub cq_depth : ℕ
  pub cq_head : ℕ
  pub nvme_sq : Option (ℕ → AdminCommand)
  pub nvme_cq : Option (ℕ → Completion)

-- struct nvme_lbaf, struct nvme_id_ns and struct nvme_id_ctrl, with the fields that are set.
pub record LbaFormat : Type 0 where
  pub ms : ℕ
  pub ds : ℕ
  pub rp : ℕ

pub record IdNs : Type 0 where
  pub nsze : ℕ
  pub ncap : ℕ
  pub nuse : ℕ
  pub nlbaf : ℕ
  pub flbas : ℕ
  pub dps : ℕ
  pub lbaf : ℕ → LbaFormat

pub record IdCtrl : Type 0 where
  pub nn : ℕ
  pub oncs : ℕ
  pub acl : ℕ
  pub vwc : ℕ
  pub mdts : ℕ
  pub sqes : ℕ
  pub cqes : ℕ

-- What the driver has written into a page of the host.
pub data Page : Type 0 where
  controller : IdCtrl → Page
  namespace : IdNs → Page

-- The host's memory: entry `i` of page `pfn`, as an admin command, an IO command and a completion.
pub record Memory : Type 0 where
  pub admin_commands : ℕ → ℕ → AdminCommand
  pub commands : ℕ → ℕ → IoCommand
  pub completions : ℕ → ℕ → Completion

-- The part of `struct nvmev_dev` that the admin commands change, and the pages they fill.
pub record Queues : Type 0 where
  pub nr_sq : ℕ
  pub nr_cq : ℕ
  pub sqes : ℕ → Option SubmissionQueue
  pub cqes : ℕ → Option CompletionQueue
  pub dbs : ℕ → ℕ
  pub old_dbs : ℕ → ℕ
  pub storage_size : ℕ
  pub pages : ℕ → Option Page

unfoldable pub nr_max_io_queue : ℕ
nr_max_io_queue = 72

-- `queue->phase | sc << 1`, as the 16-bit field.
unfoldable pub admin_status : ℕ → ℕ → ℕ
admin_status phase sc = bit_or phase (2 * sc) % 2 ^ 16

-- The four assignments to `cq_entry(cq_head)`.
unfoldable pub respond : ℕ → ℕ → ℕ → AdminQueue → Run AdminQueue
unfolding admin_status
respond eid command_id sc q = elim q.nvme_cq [
  | Option.none ↦ fault
  | Option.some cq ↦
      let entry : Completion = record (cq q.cq_head) {
        command_id = command_id;
        sq_id = 0;
        sq_head = eid % 2 ^ 16;
        status = admin_status q.phase sc;
      } in
      ok (record q { nvme_cq = Option.some (update cq q.cq_head entry) })
]

-- `cq_entry(cq_head).result = value`
unfoldable pub set_result : ℕ → AdminQueue → Run AdminQueue
set_result value q = elim q.nvme_cq [
  | Option.none ↦ fault
  | Option.some cq ↦ ok (record q {
    nvme_cq = Option.some (update cq q.cq_head (record (cq q.cq_head) { result = value }));
  })
]

-- The head moves around the ring, and the phase is inverted at its end.
unfoldable pub advance_head : AdminQueue → AdminQueue
advance_head q =
    let next = inc32 q.cq_head in
    record q {
      cq_head = if next == q.cq_depth then 0 else next;
      phase = if next == q.cq_depth then (if q.phase == 0 then 1 else 0) else q.phase;
    }
