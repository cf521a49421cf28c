-- ===== src/Dispatch/Commands.antt =====
-- The dispatcher: __nvmev_proc_io, __check_gc_and_run and nvmev_proc_io_sq. The clocks are outside of
-- the driver: `wall i` and `local i` are their readings for the i-th command of a call.
use femu_on_virt.Base.{
  ℕ, zero, suc, Bool, false, Run, ok, ◌>>=◌, ◌==◌, if◌then◌else◌, add32, inc32, sub32, add64, slt32,
}
use femu_on_virt.Ftl.Types.{Ssd}
use femu_on_virt.Ftl.Victims.{Pqueue}
use femu_on_virt.Ftl.Params.{should_gc}
use femu_on_virt.Ftl.Gc.{do_gc}
use femu_on_virt.Ftl.Io.{RwCommand, ssd_read, ssd_write}
use femu_on_virt.Dispatch.Types.{SqStat}
use femu_on_virt.Dispatch.Table.{Procs, Request, enqueue_io_req, reclaim_completed_reqs}
use femu_on_virt.Dispatch.Units.{nvme_cmd_flush, nvme_cmd_write, nvme_cmd_read, proc_flush}

-- What the dispatcher reads of a `struct nvme_command`.
pub record IoCommand : Type 0 where
  pub opcode : ℕ
  pub command_id : ℕ
  pub rw : RwCommand

-- struct nvmev_submission_queue, with its entries.
pub record SubmissionQueue : Type 0 where
  pub qid : ℕ
  pub cqid : ℕ
  pub sq_priority : ℕ
  pub phys_contig : Bool
  pub queue_size : ℕ
  pub stat : SqStat
  pub sq : ℕ → IoCommand

-- The part of `struct nvmev_dev` that the dispatcher works on, and the flash translation layer.
pub record Device (Q : Type 0) : Type 0 where
  pub ssd : Ssd Q
  pub procs : Procs
  pub nr_io_units : ℕ
  pub io_unit_stat : ℕ → ℕ

-- `if (++sq_entry == sq->queue_size) sq_entry = 0;`
unfoldable pub next_entry : ℕ → ℕ → ℕ
next_entry queue_size sq_entry = if inc32 sq_entry == queue_size then 0 else inc32 sq_entry

-- How many new commands the doorbell announces, an `int`.
unfoldable pub num_proc : ℕ → ℕ → ℕ → ℕ
num_proc queue_size new_db old_db =
    let n = sub32 new_db old_db in if slt32 n 0 then add32 n queue_size else n

module _ {Q : Type 0} ⦃pq : Pqueue Q⦄ where
  -- The time of completion of a command, and what the flash translation layer makes of it.
  unfoldable pub command_target : ℕ → IoCommand → ℕ → Device Q → Run (ℕ × Device Q)
  command_target fuel cmd nsecs_start d =
      if cmd.opcode == nvme_cmd_write
      then (ssd_write fuel cmd.rw nsecs_start d.ssd >>= λ r.
          ok (add64 nsecs_start r.0, record d { ssd = r.1 }))
      else if cmd.opcode == nvme_cmd_read
      then (let r = ssd_read cmd.rw nsecs_start d.ssd in
          ok (add64 nsecs_start r.0, record d { ssd = r.1 }))
      else if cmd.opcode == nvme_cmd_flush
      then ok (proc_flush d.nr_io_units d.io_unit_stat, d)
      else ok (0, d)

  unfoldable pub check_gc_and_run : IoCommand → Device Q → Run (Device Q)
  check_gc_and_run cmd d =
      if cmd.opcode == nvme_cmd_write
      then (if should_gc d.ssd
          then (do_gc false d.ssd >>= λ r. ok (record d { ssd = r.1 }))
          else ok d)
      else ok d

  -- The I/O length that it returns is 0: the calls of __cmd_io_size are comments.
  unfoldable pub proc_io : ℕ → ℕ → SubmissionQueue → ℕ → ℕ → ℕ → Device Q → Run (Device Q)
  proc_io fuel sqid sq sq_entry wall local d =
      let cmd = sq.sq sq_entry in
      command_target fuel cmd wall d >>= λ r.
      let request : Request = record {
        sqid = sqid;
        cqid = sq.cqid;
        sq_entry = sq_entry;
        command_id = cmd.command_id;
        nsecs_start = wall;
        nsecs_target = r.0;
        nsecs_enqueue = local;
      } in
      enqueue_io_req fuel request r.1.procs >>= λ procs.
      check_gc_and_run cmd (record (r.1) { procs = procs }) >>= λ d2.
      reclaim_completed_reqs fuel d2.procs.nr_io_cpu 0 d2.procs >>= λ procs2.
      ok (record d2 { procs = procs2 })

  -- The loop of nvmev_proc_io_sq: `k` commands are left, the next is the `seq`-th at `sq_entry`.
  unfoldable pub proc_entries :
      ℕ
      → ℕ
      → ℕ
      → ℕ
      → ℕ
      → (ℕ → ℕ)
      → (ℕ → ℕ)
      → SubmissionQueue × Device Q
      → Run (SubmissionQueue × Device Q)
  proc_entries fuel zero seq sqid sq_entry wall local r = ok r
  proc_entries fuel (suc k) seq sqid sq_entry wall local (sq, d) =
      let stat = sq.stat in
      let sq' = record sq {
        stat = record stat {
          nr_dispatched = inc32 stat.nr_dispatched;
          nr_in_flight = inc32 stat.nr_in_flight;
        };
      } in
      proc_io fuel sqid sq sq_entry (wall seq) (local seq) d >>= λ d'.
      proc_entries fuel k (suc seq) sqid (next_entry sq.queue_size sq_entry) wall local (sq', d')

  -- A negative count runs no round. A NULL queue, for which the code returns, is left out.
  unfoldable pub proc_io_sq :
      ℕ
      → ℕ
      → ℕ
      → ℕ
      → (ℕ → ℕ)
      → (ℕ → ℕ)
      → SubmissionQueue × Device Q
      → Run (SubmissionQueue × Device Q)
  proc_io_sq fuel sqid new_db old_db wall local (sq, d) =
      let n = num_proc sq.queue_size new_db old_db in
      proc_entries fuel (if slt32 n 0 then 0 else n) 0 sqid old_db wall local (sq, d) >>= λ r.
      let stat = r.0.stat in
      ok (
        record (r.0) {
          stat = record stat {
            nr_dispatch = inc32 stat.nr_dispatch;
            max_nr_in_flight =
                if slt32 stat.max_nr_in_flight stat.nr_in_flight
                then stat.nr_in_flight
                else stat.max_nr_in_flight;
          };
        },
        r.1,
      )
