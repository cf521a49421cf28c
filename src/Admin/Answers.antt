-- ===== src/Admin/Answers.antt =====
-- What an admin command leaves in the completion ring, and the tags by which the host finds it.
use femu_on_virt.Base.{
  ℕ, ◌%◌, ◌^◌, ◌≡◌, ◌≢◌, refl, sym, some, none, Bool, true, ◌||◌, Option, Run, ok, fault,
  ok-injective, guard-eq-ok, if-cases, subst, ◌>>=◌, >>=-eq-ok, ◌==◌, if◌then◌else◌, update, arith,
}
use femu_on_virt.Dispatch.Types.{Completion}
use femu_on_virt.Admin.Types.{
  AdminCommand, AdminQueue, Memory, Queues, respond, set_result, admin_status,
}
use femu_on_virt.Admin.Queues.{create_cq, delete_cq, create_sq, delete_sq}
use femu_on_virt.Admin.Identify.{identify_ctrl, identify_namespace, get_log_page, set_features}
use femu_on_virt.Admin.Requests.{async_event, admin_command}

-- The status code that a command is answered with.
abbrev pub code : ℕ → ℕ
code opcode = if opcode == 0x02 then 2 else if opcode == 0x0c then 0x105 else 0

-- The queue after the entry at the head has been written.
pub record Written (eid command_id sc : ℕ) (cq : ℕ → Completion) (q q' : AdminQueue) : Type 0 where
  pub phase : q'.phase ≡ q.phase
  pub sq_depth : q'.sq_depth ≡ q.sq_depth
  pub cq_depth : q'.cq_depth ≡ q.cq_depth
  pub cq_head : q'.cq_head ≡ q.cq_head
  pub nvme_sq : q'.nvme_sq ≡ q.nvme_sq
  pub entries : ℕ → Completion
  pub nvme_cq : q'.nvme_cq ≡ some entries
  pub command : (entries q.cq_head).command_id ≡ command_id
  pub queue : (entries q.cq_head).sq_id ≡ 0
  pub place : (entries q.cq_head).sq_head ≡ eid % 2 ^ 16
  pub status : (entries q.cq_head).status ≡ admin_status q.phase sc
  pub other : (j : ℕ) → j ≢ q.cq_head → entries j ≡ cq j

-- The queue with the completion ring `cq`.
abbrev pub with_ring : AdminQueue → (ℕ → Completion) → AdminQueue
with_ring q cq = record q { nvme_cq = some cq }

pub with_ring-eq : (q : AdminQueue) (cq : ℕ → Completion) → q.nvme_cq ≡ some cq → with_ring q cq ≡ q
with_ring-eq q cq e = λ i. record q { nvme_cq = sym e i }

module _ (eid : ℕ) (cmd : AdminCommand) (cq : ℕ → Completion) (q : AdminQueue) (d : Queues) where
  abbrev Answered : ℕ → AdminQueue × Queues → Type 0
  Answered sc s' = Written eid cmd.command_id sc cq q s'.0

  -- An entry over a ring that differs from `cq` at the head only.
  entry-Written :
      (sc : ℕ) (c : Completion) (cq1 : ℕ → Completion)
      → ((j : ℕ) → j ≢ q.cq_head → cq1 j ≡ cq j)
      → c.command_id ≡ cmd.command_id
      → c.sq_id ≡ 0
      → c.sq_head ≡ eid % 2 ^ 16
      → c.status ≡ admin_status q.phase sc
      → Written eid cmd.command_id sc cq q (with_ring q (update cq1 q.cq_head c))
  entry-Written sc c cq1 agree command queue place status = record {
    phase = refl;
    sq_depth = refl;
    cq_depth = refl;
    cq_head = refl;
    nvme_sq = refl;
    entries = update cq1 q.cq_head c;
    nvme_cq = refl;
    command = ground (arith, command);
    queue = ground (arith, queue);
    place = ground (arith, place);
    status = ground (arith, status);
    other = λ j ne. ground (arith, agree j ne, ne);
  }

  respond-Written :
      (sc : ℕ) (cq1 : ℕ → Completion) (q' : AdminQueue)
      → ((j : ℕ) → j ≢ q.cq_head → cq1 j ≡ cq j)
      → respond eid cmd.command_id sc (with_ring q cq1) ≡ ok q'
      → Written eid cmd.command_id sc cq q q'
  unfolding respond
  respond-Written sc cq1 q' agree h =
      subst (Written eid cmd.command_id sc cq q) (ok-injective h)
        (entry-Written sc _ cq1 agree refl refl refl refl)

  -- The form of most commands: an answer, and a change of the other state.
  answer-Answered :
      (sc : ℕ) (d' : Queues) (s' : AdminQueue × Queues)
      → (respond eid cmd.command_id sc (with_ring q cq) >>= λ q'. ok (q', d')) ≡ ok s'
      → Answered sc s'
  answer-Answered sc d' s' h =
      let parts = >>=-eq-ok (respond eid cmd.command_id sc (with_ring q cq)) _ h in
      subst (Answered sc) (ok-injective parts.2)
        (respond-Written sc cq parts.0 (λ j ne. refl) parts.1)

  create_cq-Answered :
      (mem : Memory) (s' : AdminQueue × Queues)
      → create_cq mem eid cmd (with_ring q cq, d) ≡ ok s'
      → Answered 0 s'
  unfolding create_cq
  create_cq-Answered mem s' h = answer-Answered 0 _ s' (guard-eq-ok _ _ h).1

  create_sq-Answered :
      (mem : Memory) (s' : AdminQueue × Queues)
      → create_sq mem eid cmd (with_ring q cq, d) ≡ ok s'
      → Answered 0 s'
  unfolding create_sq
  create_sq-Answered mem s' h = answer-Answered 0 _ s' (guard-eq-ok _ _ h).1

  -- A deletion of a queue that is there.
  present-Answered {ℓ} :
      {A : Type ℓ} (o : Option A) (sc : ℕ) (d' : Queues) (s' : AdminQueue × Queues)
      → elim o [
        | none ↦ fault
        | some a ↦ respond eid cmd.command_id sc (with_ring q cq) >>= λ q'. ok (q', d')
      ]
        ≡ ok s'
      → Answered sc s'
  present-Answered none sc d' s' h = cc
  present-Answered (some a) sc d' s' h = answer-Answered sc d' s' h

  delete_cq-Answered :
      (s' : AdminQueue × Queues) → delete_cq eid cmd (with_ring q cq, d) ≡ ok s' → Answered 0 s'
  unfolding delete_cq
  delete_cq-Answered s' h = present-Answered _ 0 _ s' (guard-eq-ok _ _ h).1

  delete_sq-Answered :
      (s' : AdminQueue × Queues) → delete_sq eid cmd (with_ring q cq, d) ≡ ok s' → Answered 0 s'
  unfolding delete_sq
  delete_sq-Answered s' h = present-Answered _ 0 _ s' (guard-eq-ok _ _ h).1

  identify-Answered :
      (s' : AdminQueue × Queues)
      → (if cmd.dword10 == 1
          then identify_ctrl eid cmd (with_ring q cq, d)
          else identify_namespace eid cmd (with_ring q cq, d))
        ≡ ok s'
      → Answered 0 s'
  unfolding identify_ctrl identify_namespace
  identify-Answered s' =
      if-cases (λ m. m ≡ ok s' → Answered 0 s') (cmd.dword10 == 1) (λ e h. answer-Answered 0 _ s' h)
        (λ e h. answer-Answered 0 _ s' h)

  get_log_page-Answered :
      (s' : AdminQueue × Queues) → get_log_page eid cmd (with_ring q cq, d) ≡ ok s' → Answered 2 s'
  unfolding get_log_page
  get_log_page-Answered s' h = answer-Answered 2 _ s' h

  abbrev finish : AdminQueue × Queues → Run (AdminQueue × Queues)
  finish s = respond eid cmd.command_id 0 s.0 >>= λ q''. ok (q'', s.1)

  abbrev with_queues : Queues → AdminQueue → Run (AdminQueue × Queues)
  with_queues d' q' = ok (q', d')

  -- The result is written first, and the answer over it.
  result-Answered :
      (v : ℕ) (d' : Queues) (s' : AdminQueue × Queues)
      → ((set_result v (with_ring q cq) >>= with_queues d') >>= finish) ≡ ok s'
      → Answered 0 s'
  unfolding set_result
  result-Answered v d' s' h =
      let cq1 = update cq q.cq_head (record (cq q.cq_head) { result = v }) in
      let parts = >>=-eq-ok (respond eid cmd.command_id 0 (with_ring q cq1)) _ h in
      subst (Answered 0) (ok-injective parts.2)
        (respond-Written 0 cq1 parts.0 (λ j ne. ground (arith, ne)) parts.1)

  set_features-Answered :
      (s' : AdminQueue × Queues) → set_features eid cmd (with_ring q cq, d) ≡ ok s' → Answered 0 s'
  unfolding set_features
  set_features-Answered s' =
      if-cases (λ m. (m >>= finish) ≡ ok s' → Answered 0 s') (cmd.dword10 == 7)
        (λ e h. result-Answered _ _ s' h) (λ e h. answer-Answered 0 d s' h)

  async_event-Answered :
      (s' : AdminQueue × Queues)
      → async_event eid cmd (with_ring q cq, d) ≡ ok s'
      → Answered 0x105 s'
  unfolding async_event respond set_result
  async_event-Answered s' h = subst (Answered 0x105) (ok-injective h) (
      entry-Written 0x105 _ _ (λ j ne. ground (arith, ne)) (ground arith) (ground arith)
        (ground arith) (ground arith))

-- The opcodes that __nvmev_proc_admin_req answers.
abbrev pub answers : ℕ → Bool
answers opcode =
    opcode == 0x00
    || (opcode == 0x01
        || (opcode == 0x02
            || (opcode == 0x04
                || (opcode == 0x05 || (opcode == 0x06 || (opcode == 0x09 || opcode == 0x0c))))))

module _ (mem : Memory) (eid : ℕ) (cmd : AdminCommand) (cq : ℕ → Completion) (q : AdminQueue)
    (d : Queues) (s' : AdminQueue × Queues) where
  abbrev Leads : Run (AdminQueue × Queues) → Type 0
  Leads m = m ≡ ok s' → Written eid cmd.command_id (code cmd.opcode) cq q s'.0

  leads :
      (sc : ℕ) (m : Run (AdminQueue × Queues))
      → code cmd.opcode ≡ sc
      → (m ≡ ok s' → Written eid cmd.command_id sc cq q s'.0)
      → Leads m
  leads sc m e f h = subst (λ c. Written eid cmd.command_id c cq q s'.0) (sym e) (f h)

  pub command-Written :
      answers cmd.opcode ≡ true → Leads (admin_command mem eid cmd (with_ring q cq, d))
  unfolding admin_command
  command-Written known =
      if-cases Leads (cmd.opcode == 0x00)
        (λ e. leads 0 _ (ground arith) (delete_sq-Answered eid cmd cq q d s'))
        (λ n0.
          if-cases Leads (cmd.opcode == 0x01)
            (λ e. leads 0 _ (ground arith) (create_sq-Answered eid cmd cq q d mem s'))
            (λ n1.
              if-cases Leads (cmd.opcode == 0x02)
                (λ e. leads 2 _ (ground arith) (get_log_page-Answered eid cmd cq q d s'))
                (λ n2.
                  if-cases Leads (cmd.opcode == 0x04)
                    (λ e. leads 0 _ (ground arith) (delete_cq-Answered eid cmd cq q d s'))
                    (λ n4.
                      if-cases Leads (cmd.opcode == 0x05)
                        (λ e. leads 0 _ (ground arith) (create_cq-Answered eid cmd cq q d mem s'))
                        (λ n5.
                          if-cases Leads (cmd.opcode == 0x06)
                            (λ e. leads 0 _ (ground arith) (identify-Answered eid cmd cq q d s'))
                            (λ n6.
                              if-cases Leads (cmd.opcode == 0x09)
                                (λ e.
                                  leads 0 _ (ground arith)
                                    (set_features-Answered eid cmd cq q d s'))
                                (λ n9.
                                  if-cases Leads (cmd.opcode == 0x0c)
                                    (λ e.
                                      leads 0x105 _ (ground arith)
                                        (async_event-Answered eid cmd cq q d s'))
                                    (λ nc h. absurd (
                                      ground (arith, known, n0, n1, n2, n4, n5, n6, n9, nc))))))))))
