-- ===== src/Dispatch/Completions.antt =====
-- __fill_cq_result and nvmev_proc_io_cq: the completion queues. `in_flight i` is the counter
-- `sqes[i]->stat.nr_in_flight`, none for a queue that is not there (NULL).
use femu_on_virt.Base.{
  ℕ, zero, suc, ◌%◌, ◌^◌, true, false, ◌>>=◌, Option, none, some, Run, ok, fault, out_of_fuel, ◌==◌,
  if◌then◌else◌, update, inc32, dec32, slt32, sub32, minus_one32,
}
use femu_on_virt.Dispatch.Types.{Completion, CompletionQueue}

-- `cq->phase | NVME_SC_SUCCESS << 1`, as the 16-bit field.
unfoldable pub completion_status : ℕ → ℕ
completion_status phase = phase % 2 ^ 16

unfoldable pub fill_cq_result : ℕ → ℕ → ℕ → CompletionQueue → CompletionQueue
unfolding completion_status
fill_cq_result sqid sq_entry command_id cq =
    let entry : Completion = record (cq.cq cq.cq_head) {
      command_id = command_id % 2 ^ 16;
      sq_id = sqid % 2 ^ 16;
      sq_head = sq_entry % 2 ^ 16;
      status = completion_status cq.phase;
    } in
    let next = inc32 cq.cq_head in
    record cq {
      cq = update cq.cq cq.cq_head entry;
      cq_head = if next == cq.queue_size then 0 else next;
      phase = if next == cq.queue_size then (if cq.phase == 0 then 1 else 0) else cq.phase;
      interrupt_ready = true;
    }

-- The loop of nvmev_proc_io_cq: the counters of the submission queues.
unfoldable pub release_entries : ℕ → ℕ → ℕ → CompletionQueue → (ℕ → Option ℕ) → Run (ℕ → Option ℕ)
release_entries zero i new_db cq in_flight = out_of_fuel
release_entries (suc fuel) i new_db cq in_flight =
    let sq = (cq.cq i).sq_id in
    elim (i == new_db) [
      | true ↦ ok in_flight
      | false ↦ elim (slt32 i cq.queue_size) [
        | true ↦ elim (in_flight sq) [
          | none ↦ fault
          | some n ↦ release_entries fuel (inc32 i) new_db cq (update in_flight sq (some (dec32 n)))
        ]
        | false ↦ release_entries fuel 0 new_db cq in_flight
      ]
    ]

-- `cq->cq_tail = new_db - 1`, and the case of the wrap.
unfoldable pub set_cq_tail : ℕ → CompletionQueue → CompletionQueue
set_cq_tail new_db cq = record cq {
  cq_tail = if new_db == minus_one32 then sub32 cq.queue_size 1 else sub32 new_db 1;
}

unfoldable pub proc_io_cq :
    ℕ → ℕ → ℕ → CompletionQueue → (ℕ → Option ℕ) → Run (CompletionQueue × (ℕ → Option ℕ))
unfolding set_cq_tail
proc_io_cq fuel new_db old_db cq in_flight =
    release_entries fuel old_db new_db cq in_flight >>= λ left. ok (set_cq_tail new_db cq, left)
