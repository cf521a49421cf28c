-- ===== src/Admin/Progress.antt =====
-- The commands that the driver can carry out succeed.
use femu_on_virt.Base.{
  ℕ, ◌≤◌, ◌≡◌, ◌⊎◌, inl, inr, refl, some, ltb-false, Run, ok, ◌>>=◌, ◌==◌, if◌then◌else◌, if-cases,
  arith,
}
use femu_on_virt.Dispatch.Types.{Completion}
use femu_on_virt.Dispatch.Commands.{SubmissionQueue}
use femu_on_virt.Dispatch.Types.{CompletionQueue}
use femu_on_virt.Admin.Types.{
  AdminCommand, AdminQueue, Memory, Queues, low, nr_max_io_queue, respond, set_result,
}
use femu_on_virt.Admin.Queues.{create_cq, delete_cq, create_sq, delete_sq}
use femu_on_virt.Admin.Identify.{identify_ctrl, identify_namespace, get_log_page, set_features}
use femu_on_virt.Admin.Requests.{async_event, admin_command}
use femu_on_virt.Admin.Answers.{with_ring}

-- A command that the driver can carry out: a queue to create has an id up to 72, and one to delete
-- is there.
pub record IsLegal (cmd : AdminCommand) (d : Queues) : Type 0 where
  pub create : (cmd.opcode ≡ 0x01) ⊎ (cmd.opcode ≡ 0x05) → low cmd.dword10 ≤ nr_max_io_queue
  pub delete_sq :
      cmd.opcode ≡ 0x00
      → (low cmd.dword10 ≤ nr_max_io_queue)
        × (sq : SubmissionQueue) × (d.sqes (low cmd.dword10) ≡ some sq)
  pub delete_cq :
      cmd.opcode ≡ 0x04
      → (low cmd.dword10 ≤ nr_max_io_queue)
        × (cq : CompletionQueue) × (d.cqes (low cmd.dword10) ≡ some cq)

abbrev Succeeds : Run (AdminQueue × Queues) → Type 0
Succeeds m = (s : AdminQueue × Queues) × (m ≡ ok s)

module _ (mem : Memory) (eid : ℕ) (cmd : AdminCommand) (cq : ℕ → Completion) (q : AdminQueue)
    (d : Queues) where
  create_cq_ok :
      low cmd.dword10 ≤ nr_max_io_queue → Succeeds (create_cq mem eid cmd (with_ring q cq, d))
  unfolding create_cq respond
  create_cq_ok h = rw (ltb-false nr_max_io_queue (low cmd.dword10) h) (_, refl)

  create_sq_ok :
      low cmd.dword10 ≤ nr_max_io_queue → Succeeds (create_sq mem eid cmd (with_ring q cq, d))
  unfolding create_sq respond
  create_sq_ok h = rw (ltb-false nr_max_io_queue (low cmd.dword10) h) (_, refl)

  delete_cq_ok :
      (queue : CompletionQueue)
      → low cmd.dword10 ≤ nr_max_io_queue
      → d.cqes (low cmd.dword10) ≡ some queue
      → Succeeds (delete_cq eid cmd (with_ring q cq, d))
  unfolding delete_cq respond
  delete_cq_ok queue h e = rw (ltb-false nr_max_io_queue (low cmd.dword10) h, e) (_, refl)

  delete_sq_ok :
      (queue : SubmissionQueue)
      → low cmd.dword10 ≤ nr_max_io_queue
      → d.sqes (low cmd.dword10) ≡ some queue
      → Succeeds (delete_sq eid cmd (with_ring q cq, d))
  unfolding delete_sq respond
  delete_sq_ok queue h e = rw (ltb-false nr_max_io_queue (low cmd.dword10) h, e) (_, refl)

  set_features_ok : Succeeds (set_features eid cmd (with_ring q cq, d))
  unfolding set_features respond set_result
  set_features_ok =
      if-cases
        (λ (m : Run (AdminQueue × Queues)).
          Succeeds (m >>= λ s. respond eid cmd.command_id 0 s.0 >>= λ q''. ok (q'', s.1)))
        (cmd.dword10 == 7) (λ e. (_, refl)) (λ e. (_, refl))

  identify_ok : Succeeds (
      if cmd.dword10 == 1
      then identify_ctrl eid cmd (with_ring q cq, d)
      else identify_namespace eid cmd (with_ring q cq, d))
  unfolding identify_ctrl identify_namespace respond
  identify_ok = if-cases Succeeds (cmd.dword10 == 1) (λ e. (_, refl)) (λ e. (_, refl))

  pub command_ok : IsLegal cmd d → Succeeds (admin_command mem eid cmd (with_ring q cq, d))
  unfolding admin_command get_log_page async_event respond set_result
  command_ok legal =
      if-cases Succeeds (cmd.opcode == 0x00)
        (λ e. let h = legal.delete_sq (ground arith) in delete_sq_ok h.1 h.0 h.2)
        (λ n.
          if-cases Succeeds (cmd.opcode == 0x01)
            (λ e. create_sq_ok (legal.create (inl (ground arith))))
            (λ n.
              if-cases Succeeds (cmd.opcode == 0x02) (λ e. (_, refl))
                (λ n.
                  if-cases Succeeds (cmd.opcode == 0x04)
                    (λ e. let h = legal.delete_cq (ground arith) in delete_cq_ok h.1 h.0 h.2)
                    (λ n.
                      if-cases Succeeds (cmd.opcode == 0x05)
                        (λ e. create_cq_ok (legal.create (inr (ground arith))))
                        (λ n.
                          if-cases Succeeds (cmd.opcode == 0x06) (λ e. identify_ok)
                            (λ n.
                              if-cases Succeeds (cmd.opcode == 0x09) (λ e. set_features_ok)
                                (λ n.
                                  if-cases Succeeds (cmd.opcode == 0x0c) (λ e. (_, refl))
                                    (λ n. (_, refl)))))))))
