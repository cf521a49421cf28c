-- ===== src/Admin/Delivery.antt =====
-- The admin completion ring and its host: what a command pushes, and what it leaves unsaid.
use femu_on_virt.Base.{
  ℕ, zero, suc, ◌%◌, ◌^◌, ◌<◌, ◌≡◌, ◌⊎◌, inl, inr, refl, sym, ◌∙◌, ap, subst, some, none, true, Run,
  ok, fault, ◌>>=◌, arith,
}
use femu_on_virt.Dispatch.Types.{Completion}
use femu_on_virt.Host.Reader.{Ring, Pushed}
use femu_on_virt.Admin.Types.{AdminCommand, AdminQueue, Memory, Queues, admin_status, advance_head}
use femu_on_virt.Admin.Requests.{admin_command, proc_admin_req}
use femu_on_virt.Admin.Progress.{IsLegal, command_ok}
use femu_on_virt.Admin.Answers.{Written, answers, code, with_ring-eq, command-Written}

-- The lowest bit of a status is the phase.
status_bit :
    (phase sc : ℕ)
    → phase < 2
    → (sc ≡ 0) ⊎ ((sc ≡ 2) ⊎ (sc ≡ 0x105))
    → admin_status phase sc % 2 ≡ phase
unfolding admin_status
status_bit zero sc h (inl e) = rw e refl
status_bit zero sc h (inr (inl e)) = rw e refl
status_bit zero sc h (inr (inr e)) = rw e refl
status_bit (suc zero) sc h (inl e) = rw e refl
status_bit (suc zero) sc h (inr (inl e)) = rw e refl
status_bit (suc zero) sc h (inr (inr e)) = rw e refl
status_bit (suc (suc n)) sc h c = absurd (omega arith)

codes : (opcode : ℕ) → (code opcode ≡ 0) ⊎ ((code opcode ≡ 2) ⊎ (code opcode ≡ 0x105))
codes opcode = ground arith

abbrev pub admin_ring : AdminQueue → (ℕ → Completion) → Ring
admin_ring q cq = record { size = q.cq_depth; head = q.cq_head; phase = q.phase; entries = cq }

-- What a request leaves: its answer in the ring, and the head behind it.
pub record Answers (cmd : AdminCommand) (q q' : AdminQueue) (cq : ℕ → Completion) : Type 0 where
  pub entries : ℕ → Completion
  pub nvme_cq : q'.nvme_cq ≡ some entries
  pub nvme_sq : q'.nvme_sq ≡ q.nvme_sq
  pub sq_depth : q'.sq_depth ≡ q.sq_depth
  pub pushed : Pushed cmd.command_id (admin_ring q cq) (admin_ring q' entries)

pub record IsAdminRing (q : AdminQueue) : Type 0 where
  pub small : q.cq_depth < 2 ^ 31
  pub head : q.cq_head < q.cq_depth
  pub phase : q.phase < 2

pub advance-Answers :
    (eid : ℕ) (cmd : AdminCommand) (q q' : AdminQueue) (cq : ℕ → Completion)
    → IsAdminRing q
    → Written eid cmd.command_id (code cmd.opcode) cq q q'
    → Answers cmd q (advance_head q') cq
unfolding advance_head
advance-Answers eid cmd q q' cq r w = record {
  entries = w.entries;
  nvme_cq = w.nvme_cq;
  nvme_sq = w.nvme_sq;
  sq_depth = w.sq_depth;
  pushed = record {
    size = w.cq_depth;
    head = ground (arith, w.cq_head, w.cq_depth, r.small, r.head);
    phase = ground (arith, w.cq_head, w.cq_depth, w.phase, r.small, r.head, r.phase);
    command = w.command;
    tag =
        ap (λ n. n % 2) w.status ∙ status_bit q.phase (code cmd.opcode) r.phase (codes cmd.opcode);
    other = w.other;
  };
}

pub Answers-IsAdminRing :
    (cmd : AdminCommand) (q q' : AdminQueue) (cq : ℕ → Completion)
    → IsAdminRing q
    → Answers cmd q q' cq
    → IsAdminRing q'
Answers-IsAdminRing cmd q q' cq r a = record {
  small = omega (arith, a.pushed.size, r.small);
  head = ground (arith, a.pushed.size, a.pushed.head, r.head);
  phase = ground (arith, a.pushed.phase, r.phase);
}

abbrev pub behind : AdminQueue × Queues → Run (AdminQueue × Queues)
behind s = ok (advance_head s.0, s.1)

module _ (mem : Memory) (sq : ℕ → AdminCommand) where
  command_total :
      (eid : ℕ) (q : AdminQueue) (d : Queues) (cq : ℕ → Completion)
      → q.nvme_cq ≡ some cq
      → answers (sq eid).opcode ≡ true
      → IsLegal (sq eid) d
      → (s : AdminQueue × Queues) × (admin_command mem eid (sq eid) (q, d) ≡ ok s)
        × Written eid (sq eid).command_id (code (sq eid).opcode) cq q s.0
  command_total eid q d cq e known legal =
      let done = command_ok mem eid (sq eid) cq q d legal in
      let w = command-Written mem eid (sq eid) cq q d done.0 known done.1 in
      (
        done.0,
        ap (λ x. admin_command mem eid (sq eid) (x, d)) (sym (with_ring-eq q cq e)) ∙ done.1,
        w,
      )

  pub request-eq :
      (eid : ℕ) (q : AdminQueue) (d : Queues) (s : AdminQueue × Queues)
      → q.nvme_sq ≡ some sq
      → admin_command mem eid (sq eid) (q, d) ≡ ok s
      → proc_admin_req mem eid (q, d) ≡ behind s
  unfolding proc_admin_req
  request-eq eid q d s e h =
      subst
        (λ o.
          elim o [ none ↦ fault | some ring ↦ admin_command mem eid (ring eid) (q, d) >>= behind ]
          ≡ behind s)
        (sym e) (rw h refl)

  -- One request: it succeeds, and its answer is behind the others.
  pub request-Answers :
      (eid : ℕ) (q : AdminQueue) (d : Queues) (cq : ℕ → Completion)
      → IsAdminRing q
      → q.nvme_sq ≡ some sq
      → q.nvme_cq ≡ some cq
      → answers (sq eid).opcode ≡ true
      → IsLegal (sq eid) d
      → (s' : AdminQueue × Queues) × (proc_admin_req mem eid (q, d) ≡ ok s')
        × Answers (sq eid) q s'.0 cq
  request-Answers eid q d cq r esq ecq known legal =
      let done = command_total eid q d cq ecq known legal in
      (
        (advance_head done.0.0, done.0.1),
        request-eq eid q d done.0 esq done.1,
        advance-Answers eid (sq eid) q done.0.0 cq r done.2,
      )
