-- ===== src/Admin/Batch.antt =====
-- A batch of admin commands, from the doorbell to the host's reads.
use femu_on_virt.Base.{
  ℕ, zero, suc, ◌+◌, ◌^◌, ◌≤◌, ◌<◌, ◌≡◌, refl, sym, ◌∙◌, ap, subst, some, true, Run, ok, slt32,
  if◌then◌else◌, arith, List, [], ◌∷◌, ◌++◌, length, length-append,
}
use mathlib.Core.List.{append-nil, append_assoc}
use femu_on_virt.Dispatch.Types.{Completion}
use femu_on_virt.Dispatch.Commands.{next_entry, num_proc}
use femu_on_virt.Host.Reader.{Reader, Holds, drain}
use femu_on_virt.Host.Fifo.{push-Holds, drain-Holds}
use femu_on_virt.Admin.Types.{AdminCommand, AdminQueue, Memory, Queues}
use femu_on_virt.Admin.Requests.{proc_admin_req, proc_admin_reqs, proc_admin_sq}
use femu_on_virt.Admin.Progress.{IsLegal}
use femu_on_virt.Admin.Answers.{answers}
use femu_on_virt.Dispatch.Doorbell.{num_proc-IsAnnounced}
use femu_on_virt.Admin.Delivery.{admin_ring, IsAdminRing, request-Answers, Answers-IsAdminRing}

-- What a run of requests ends with.
pub record Delivered (ids : List ℕ) (r : Reader) (m : Run (AdminQueue × Queues)) : Type 0 where
  pub end : AdminQueue × Queues
  pub succeeds : m ≡ ok end
  pub entries : ℕ → Completion
  pub nvme_cq : end.0.nvme_cq ≡ some entries
  pub holds : Holds ids (admin_ring end.0 entries) r

module _ (mem : Memory) (sq : ℕ → AdminCommand) where
  -- The commands from `curr` on, all of which the driver answers and can carry out.
  abbrev pub Served : ℕ → ℕ → AdminQueue × Queues → Type 0
  Served zero curr s = Unit
  Served (suc k) curr s =
      (answers (sq curr).opcode ≡ true)
      × IsLegal (sq curr) s.1
      × ((s' : AdminQueue × Queues)
          → proc_admin_req mem curr s ≡ ok s'
          → Served k (next_entry s.0.sq_depth curr) s')

  abbrev pub command_ids : ℕ → ℕ → ℕ → List ℕ
  command_ids depth zero curr = []
  command_ids depth (suc k) curr =
      (sq curr).command_id ∷ command_ids depth k (next_entry depth curr)

  requests-Delivered :
      (k curr : ℕ) (q : AdminQueue) (d : Queues) (cq : ℕ → Completion) (pending : List ℕ)
      (r : Reader)
      → IsAdminRing q
      → q.nvme_sq ≡ some sq
      → q.nvme_cq ≡ some cq
      → Served k curr (q, d)
      → Holds pending (admin_ring q cq) r
      → length pending + k ≤ q.cq_depth
      → Delivered (pending ++ command_ids q.sq_depth k curr) r (proc_admin_reqs mem k curr (q, d))
  unfolding proc_admin_reqs
  requests-Delivered zero curr q d cq pending r ring esq ecq served h room = record {
    end = (q, d);
    succeeds = refl;
    entries = cq;
    nvme_cq = ecq;
    holds = rw (append-nil pending) h;
  }
  requests-Delivered (suc k) curr q d cq pending r ring esq ecq served h room =
      let one = request-Answers mem sq curr q d cq ring esq ecq served.0 served.1 in
      let a = one.2 in
      let id = (sq curr).command_id in
      let rest =
        requests-Delivered k (next_entry one.0.0.sq_depth curr) one.0.0 one.0.1 a.entries
          (pending ++ id ∷ []) r (Answers-IsAdminRing (sq curr) q one.0.0 cq ring a)
          (a.nvme_sq ∙ esq) a.nvme_cq
          (subst (λ n. Served k (next_entry n curr) one.0) (sym a.sq_depth) (served.2 one.0 one.1))
          (push-Holds id pending _ _ r h (omega arith) a.pushed)
          (omega (arith, length-append pending (id ∷ []), a.pushed.size)) in
      record {
        end = rest.end;
        succeeds = rw one.1 rest.succeeds;
        entries = rest.entries;
        nvme_cq = rest.nvme_cq;
        holds =
            subst (λ ids. Holds ids (admin_ring rest.end.0 rest.entries) r)
              (append_assoc pending (id ∷ []) _
                ∙ ap (λ n. pending ++ id ∷ command_ids n k (next_entry n curr)) a.sq_depth)
              rest.holds;
      }

  -- For an admin queue whose rings have fewer than 2^31 entries, doorbell values within the
  -- submission ring, and a host that has not read the completions of the commands `pending`: if
  -- each of the announced commands is one that the driver answers and can carry out when its turn
  -- comes, and the completion ring has room for all answers, then nvmev_proc_admin_sq succeeds,
  -- and a host that reads until it finds nothing new finds `pending` and then the ids of the
  -- announced commands, in order.
  pub proc_admin_sq-Delivered :
      (new_db old_db : ℕ) (q : AdminQueue) (d : Queues) (cq : ℕ → Completion) (pending : List ℕ)
      (r : Reader)
      → IsAdminRing q
      → q.sq_depth < 2 ^ 31
      → new_db < q.sq_depth
      → old_db < q.sq_depth
      → q.nvme_sq ≡ some sq
      → q.nvme_cq ≡ some cq
      → Served (num_proc q.sq_depth new_db old_db) old_db (q, d)
      → Holds pending (admin_ring q cq) r
      → length pending + num_proc q.sq_depth new_db old_db ≤ q.cq_depth
      → let ids = pending ++ command_ids q.sq_depth (num_proc q.sq_depth new_db old_db) old_db in
        (e : Delivered ids r (proc_admin_sq mem new_db old_db (q, d))) × (drain
            (suc (length ids))
            (admin_ring e.end.0 e.entries)
            r
          ≡ ids)
  unfolding proc_admin_sq
  proc_admin_sq-Delivered new_db old_db q d cq pending r ring small new_lt old_lt esq ecq served h
        room =
      let n = num_proc q.sq_depth new_db old_db in
      let few = (num_proc-IsAnnounced q.sq_depth new_db old_db small new_lt old_lt).few in
      let counted : (if slt32 n 0 then 0 else n) ≡ n = ground (arith, few, small) in
      let e = requests-Delivered n old_db q d cq pending r ring esq ecq served h room in
      let e' =
        subst
          (λ k.
            Delivered (pending ++ command_ids q.sq_depth n old_db) r
              (proc_admin_reqs mem k old_db (q, d)))
          (sym counted) e in
      (e', drain-Holds _ _ _ r e'.holds (omega arith))
