-- ===== src/Admin/Queues.antt =====
-- __nvmev_admin_create_cq, _delete_cq, _create_sq and _delete_sq. An id above NR_MAX_IO_QUEUE, for
-- which the code writes behind its arrays, faults; so does the deletion of a queue that is not there.
use femu_on_virt.Base.{
  ℕ, ◌+◌, ◌-◌, ◌*◌, ◌/◌, ◌%◌, ◌^◌, none, some, false, Run, ok, fault, ◌>>=◌, ltb, if◌then◌else◌,
  update, minus_one32,
}
use femu_on_virt.Dispatch.Types.{CompletionQueue}
use femu_on_virt.Dispatch.Commands.{SubmissionQueue}
use femu_on_virt.Admin.Types.{
  AdminCommand, AdminQueue, Memory, Queues, low, high, flag, nr_max_io_queue, respond,
}

-- The entry `i` of a queue whose first page is that of `prp1`.
unfoldable pub new_cq : Memory → AdminCommand → CompletionQueue
unfolding low high flag
new_cq mem cmd =
    let irq_enabled = flag 1 (low cmd.dword11) in
    record {
      qid = low cmd.dword10;
      irq_vector = if irq_enabled then high cmd.dword11 else 0;
      irq_enabled = irq_enabled;
      interrupt_ready = false;
      phys_contig = flag 0 (low cmd.dword11);
      queue_size = high cmd.dword10 + 1;
      phase = 1;
      cq_head = 0;
      cq_tail = minus_one32;
      cq = λ i. mem.completions (cmd.prp1 / 2 ^ 12 + i / 256) (i % 256);
    }

unfoldable pub create_cq :
    Memory → ℕ → AdminCommand → AdminQueue × Queues → Run (AdminQueue × Queues)
unfolding new_cq nr_max_io_queue
create_cq mem eid cmd (q, d) =
    let cq = new_cq mem cmd in
    let dbs_idx = cq.qid * 2 + 1 in
    if ltb nr_max_io_queue cq.qid
    then fault
    else respond eid cmd.command_id 0 q >>= λ q'. ok (
      q',
      record d {
        cqes = update d.cqes cq.qid (some cq);
        dbs = update d.dbs dbs_idx 0;
        old_dbs = update d.old_dbs dbs_idx 0;
      },
    )

unfoldable pub delete_cq : ℕ → AdminCommand → AdminQueue × Queues → Run (AdminQueue × Queues)
unfolding low nr_max_io_queue
delete_cq eid cmd (q, d) =
    let qid = low cmd.dword10 in
    if ltb nr_max_io_queue qid then fault else elim (d.cqes qid) [
      | none ↦ fault
      | some cq ↦ respond eid cmd.command_id 0 q >>= λ q'.
          ok (q', record d { cqes = update d.cqes qid none })
    ]

-- `cmd->sq_flags & 0xFFFE` clears the lowest bit.
unfoldable new_sq : Memory → AdminCommand → SubmissionQueue
unfolding low high flag
new_sq mem cmd =
    let flags = low cmd.dword11 in
    record {
      qid = low cmd.dword10;
      cqid = high cmd.dword11;
      sq_priority = flags - flags % 2;
      phys_contig = flag 0 flags;
      queue_size = high cmd.dword10 + 1;
      stat = record {
        nr_dispatched = 0;
        nr_dispatch = 0;
        nr_in_flight = 0;
        max_nr_in_flight = 0;
        total_io = 0;
      };
      sq = λ i. mem.commands (cmd.prp1 / 2 ^ 12 + i / 64) (i % 64);
    }

unfoldable pub create_sq :
    Memory → ℕ → AdminCommand → AdminQueue × Queues → Run (AdminQueue × Queues)
unfolding new_sq nr_max_io_queue
create_sq mem eid cmd (q, d) =
    let sq = new_sq mem cmd in
    let dbs_idx = sq.qid * 2 in
    if ltb nr_max_io_queue sq.qid
    then fault
    else respond eid cmd.command_id 0 q >>= λ q'. ok (
      q',
      record d {
        sqes = update d.sqes sq.qid (some sq);
        dbs = update d.dbs dbs_idx 0;
        old_dbs = update d.old_dbs dbs_idx 0;
      },
    )

unfoldable pub delete_sq : ℕ → AdminCommand → AdminQueue × Queues → Run (AdminQueue × Queues)
unfolding low nr_max_io_queue
delete_sq eid cmd (q, d) =
    let qid = low cmd.dword10 in
    if ltb nr_max_io_queue qid then fault else elim (d.sqes qid) [
      | none ↦ fault
      | some sq ↦ respond eid cmd.command_id 0 q >>= λ q'.
          ok (q', record d { sqes = update d.sqes qid none })
    ]
