-- ===== src/Driver/Doorbells.antt =====
-- nvmev_proc_dbs and a round of nvmev_dispatcher. For the queue `qid`, `wall qid i` and `local qid i`
-- are the readings of the clocks for its i-th command.
use femu_on_virt.Base.{
  ℕ, zero, suc, ◌+◌, ◌*◌, Option, none, some, Run, ok, fault, ◌>>=◌, ◌==◌, if◌then◌else◌, update,
}
use femu_on_virt.Ftl.Victims.{Pqueue}
use femu_on_virt.Dispatch.Commands.{SubmissionQueue, Device, proc_io_sq}
use femu_on_virt.Dispatch.Completions.{proc_io_cq}
use femu_on_virt.Admin.Types.{Memory, Queues}
use femu_on_virt.Admin.Requests.{proc_admin_sq}
use femu_on_virt.Pci.Bars.{Controller, proc_bars}

-- `struct nvmev_dev`
pub record Vdev (Q : Type 0) : Type 0 where
  pub controller : Controller
  pub queues : Queues
  pub device : Device Q

-- The counters `sqes[i]->stat.nr_in_flight`, and the queues with new ones.
unfoldable pub in_flight : (ℕ → Option SubmissionQueue) → ℕ → Option ℕ
in_flight sqes i = elim (sqes i) [ none ↦ none | some sq ↦ some sq.stat.nr_in_flight ]

unfoldable pub set_counter : Option ℕ → SubmissionQueue → SubmissionQueue
set_counter none sq = sq
set_counter (some n) sq = record sq { stat = record (sq.stat) { nr_in_flight = n } }

unfoldable pub set_in_flight :
    (ℕ → Option ℕ) → (ℕ → Option SubmissionQueue) → ℕ → Option SubmissionQueue
set_in_flight left sqes i = elim (sqes i) [ none ↦ none | some sq ↦ some (set_counter (left i) sq) ]

-- `vdev->old_dbs[idx] = new_db`
abbrev pub set_old_db : ℕ → ℕ → Queues → Queues
set_old_db idx new_db q = record q { old_dbs = update q.old_dbs idx new_db }

module _ {Q : Type 0} where
  unfoldable pub admin_sq_db : Memory → Vdev Q → Run (Vdev Q)
  admin_sq_db mem d =
      let new_db = d.queues.dbs 0 in
      if new_db == d.queues.old_dbs 0 then ok d else elim d.controller.admin_q [
        | none ↦ fault
        | some q ↦ proc_admin_sq mem new_db (d.queues.old_dbs 0) (q, d.queues) >>= λ r.
            ok (record d {
              controller = record (d.controller) { admin_q = some r.0 };
              queues = set_old_db 0 new_db r.1;
            })
      ]

  -- nvmev_proc_admin_cq does nothing.
  unfoldable pub admin_cq_db : Vdev Q → Vdev Q
  admin_cq_db d =
      let new_db = d.queues.dbs 1 in
      if new_db == d.queues.old_dbs 1 then d else record d { queues = set_old_db 1 new_db d.queues }

  -- One round of the loop over the completion queues.
  unfoldable pub io_cq_db : ℕ → ℕ → Vdev Q → Run (Vdev Q)
  io_cq_db fuel qid d = elim (d.queues.cqes qid) [
    | none ↦ ok d
    | some cq ↦
        let dbs_idx = qid * 2 + 1 in
        let new_db = d.queues.dbs dbs_idx in
        let old_db = d.queues.old_dbs dbs_idx in
        if new_db == old_db
        then ok d
        else proc_io_cq fuel new_db old_db cq (in_flight d.queues.sqes) >>= λ r.
            let q = record (d.queues) {
              cqes = update d.queues.cqes qid (some r.0);
              sqes = set_in_flight r.1 d.queues.sqes;
            } in
            ok (record d { queues = set_old_db dbs_idx new_db q })
  ]

  unfoldable pub io_cq_dbs : ℕ → ℕ → ℕ → Vdev Q → Run (Vdev Q)
  io_cq_dbs fuel zero qid d = ok d
  io_cq_dbs fuel (suc k) qid d = io_cq_db fuel qid d >>= λ d'. io_cq_dbs fuel k (suc qid) d'

module _ {Q : Type 0} ⦃pq : Pqueue Q⦄ where
  -- One round of the loop over the submission queues.
  unfoldable pub io_sq_db : ℕ → (ℕ → ℕ → ℕ) → (ℕ → ℕ → ℕ) → ℕ → Vdev Q → Run (Vdev Q)
  io_sq_db fuel wall local qid d = elim (d.queues.sqes qid) [
    | none ↦ ok d
    | some sq ↦
        let dbs_idx = qid * 2 in
        let new_db = d.queues.dbs dbs_idx in
        let old_db = d.queues.old_dbs dbs_idx in
        if new_db == old_db
        then ok d
        else proc_io_sq fuel qid new_db old_db (wall qid) (local qid) (sq, d.device) >>= λ r.
            let q = record (d.queues) { sqes = update d.queues.sqes qid (some r.0) } in
            ok (record d { queues = set_old_db dbs_idx new_db q; device = r.1 })
  ]

  unfoldable pub io_sq_dbs : ℕ → (ℕ → ℕ → ℕ) → (ℕ → ℕ → ℕ) → ℕ → ℕ → Vdev Q → Run (Vdev Q)
  io_sq_dbs fuel wall local zero qid d = ok d
  io_sq_dbs fuel wall local (suc k) qid d =
      io_sq_db fuel wall local qid d >>= λ d'. io_sq_dbs fuel wall local k (suc qid) d'

  -- The doorbells of the IO queues. The loops do not change the numbers of queues.
  unfoldable pub io_dbs : ℕ → (ℕ → ℕ → ℕ) → (ℕ → ℕ → ℕ) → Vdev Q → Run (Vdev Q)
  io_dbs fuel wall local d =
      io_sq_dbs fuel wall local d.queues.nr_sq 1 d >>= λ d'. io_cq_dbs fuel d'.queues.nr_cq 1 d'

  unfoldable pub proc_dbs : ℕ → (ℕ → ℕ → ℕ) → (ℕ → ℕ → ℕ) → Memory → Vdev Q → Run (Vdev Q)
  proc_dbs fuel wall local mem d =
      admin_sq_db mem d >>= λ d'. io_dbs fuel wall local (admin_cq_db d')

  -- One round of nvmev_dispatcher.
  unfoldable pub dispatch : ℕ → (ℕ → ℕ → ℕ) → (ℕ → ℕ → ℕ) → Memory → Vdev Q → Run (Vdev Q)
  dispatch fuel wall local mem d =
      proc_bars mem d.controller >>= λ c. proc_dbs fuel wall local mem (record d { controller = c })
