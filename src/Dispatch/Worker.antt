-- ===== src/Dispatch/Worker.antt =====
-- nvmev_kthread_io: one round of a worker over its requests in flight, and over the completion queues.
-- `clock i` is the i-th reading of `local_clock() + delta` of a round. A queue that is not there is
-- NULL, and its dereference a fault.
use femu_on_virt.Base.{
  ℕ, zero, suc, ◌+◌, ◌*◌, ◌^◌, Bool, true, false, ◌&&◌, List, [], ◌∷◌, ◌++◌, Option, none, some,
  Run, ok, fault, ◌>>=◌, out_of_fuel, leb, ◌==◌, update, minus_one32,
}
use femu_on_virt.Dispatch.Types.{ProcTable, ProcInfo, CompletionQueue}
use femu_on_virt.Dispatch.Completions.{fill_cq_result}
use femu_on_virt.Dispatch.Prp.{PrpCommand, Copy, do_perform_io}

-- What __do_perform_io reads of a submission queue's entry, and of the host's memory behind prp2.
pub record Transfer : Type 0 where
  pub write : Bool
  pub rw : PrpCommand
  pub prp_list : ℕ → ℕ

-- The memcpy calls for the request `entry`; a write's copies go to the storage.
pub record Moved : Type 0 where
  pub entry : ℕ
  pub write : Bool
  pub copies : List Copy

-- A worker's table, the completion queues, and the copies made, in order.
pub record Work : Type 0 where
  pub pi : ProcInfo
  pub cqes : ℕ → Option CompletionQueue
  pub moved : List Moved

unfoldable pub set_entry : ℕ → ProcTable → Work → Work
set_entry curr pe w = record w {
  pi = record (w.pi) { proc_table = update w.pi.proc_table curr pe };
}

-- More than the bytes of a command.
unfoldable pub io_fuel : PrpCommand → ℕ
io_fuel cmd = suc ((cmd.length + 1) * 2 ^ 9)

-- __fill_cq_result for a request that is due.
unfoldable pub complete_request : ℕ → Work → Run Work
unfolding set_entry
complete_request curr w =
    let pe = w.pi.proc_table curr in
    elim (w.cqes pe.cqid) [
      | none ↦ fault
      | some cq ↦
          let cq' = fill_cq_result pe.sqid pe.sq_entry pe.command_id cq in
          ok (
            set_entry curr (record pe { is_completed = true })
              (record w { cqes = update w.cqes pe.cqid (some cq') }))
    ]

-- `source sqid sq_entry` is the entry of a submission queue.
module _ (source : ℕ → ℕ → Option Transfer) where
  -- __do_perform_io for a request that is not copied.
  unfoldable pub copy_request : ℕ → Work → Run Work
  unfolding set_entry io_fuel
  copy_request curr w =
      let pe = w.pi.proc_table curr in
      elim (pe.is_copied) [
        | true ↦ ok w
        | false ↦ elim (source pe.sqid pe.sq_entry) [
          | none ↦ fault
          | some t ↦ do_perform_io t.rw t.prp_list (io_fuel t.rw) >>= λ r.
              let done : Moved = record { entry = curr; write = t.write; copies = r.0 } in
              ok (
                set_entry curr (record pe { is_copied = true })
                  (record w { moved = w.moved ++ done ∷ [] }))
        ]
      ]

  -- `while (curr != -1)`
  unfoldable pub work_rounds : ℕ → ℕ → (ℕ → ℕ) → ℕ → Work → Run Work
  work_rounds zero i clock curr w = out_of_fuel
  work_rounds (suc fuel) i clock curr w =
      let w1 = record w { pi = record (w.pi) { proc_io_nsecs = clock i } } in
      let pe = w.pi.proc_table curr in
      elim (curr == minus_one32) [
        | true ↦ ok w
        | false ↦ elim (pe.is_completed) [
          | true ↦ work_rounds fuel (suc i) clock pe.next w1
          | false ↦ copy_request curr w1 >>= λ w2. elim (leb pe.nsecs_target (clock i)) [
            | true ↦ complete_request curr w2 >>= λ w3. work_rounds fuel (suc i) clock pe.next w3
            | false ↦ ok w2
          ]
        ]
      ]

-- The signalled interrupts' vectors, and the queues behind them, for the `k` queues from `qidx` on. A
-- lock that another worker holds is tried again in the next round; here it is free.
unfoldable pub signal_queues :
    ℕ → ℕ → (ℕ → Option CompletionQueue) → List ℕ × (ℕ → Option CompletionQueue)
signal_queues zero qidx cqes = ([], cqes)
signal_queues (suc k) qidx cqes = elim (cqes qidx) [
  | none ↦ signal_queues k (suc qidx) cqes
  | some cq ↦ elim (cq.irq_enabled && cq.interrupt_ready) [
    | false ↦ signal_queues k (suc qidx) cqes
    | true ↦
        (let (rest, after) =
            signal_queues k (suc qidx)
              (update cqes qidx (some (record cq { interrupt_ready = false }))) in
          (cq.irq_vector ∷ rest, after))
  ]
]

-- One round of the worker: the requests from the head of the table, and the queues' interrupts.
unfoldable pub work_round : (ℕ → ℕ → Option Transfer) → ℕ → ℕ → (ℕ → ℕ) → Work → Run (List ℕ × Work)
work_round source fuel nr_cq clock w = work_rounds source fuel 0 clock w.pi.io_seq w >>= λ w'.
    (let (vectors, cqes) = signal_queues nr_cq 1 w'.cqes in ok (vectors, record w' { cqes = cqes }))
