-- ===== src/Admin/Silent.antt =====
-- The requests that __nvmev_proc_admin_req does not answer: the head moves on over an entry that the
-- host does not find new.
use femu_on_virt.Base.{ℕ, ◌<◌, ◌≡◌, ◌≢◌, refl, ◌∙◌, some, none, true, false, ok, arith, []}
use femu_on_virt.Dispatch.Types.{Completion}
use femu_on_virt.Host.Reader.{Reader, Holds, read}
use femu_on_virt.Host.Fifo.{not_new}
use femu_on_virt.Admin.Types.{AdminCommand, AdminQueue, Memory, Queues, advance_head}
use femu_on_virt.Admin.Requests.{admin_command, proc_admin_req}
use femu_on_virt.Admin.Progress.{IsLegal}
use femu_on_virt.Admin.Answers.{answers}
use femu_on_virt.Admin.Delivery.{admin_ring, Answers, IsAdminRing, request-Answers, request-eq}

module _ (mem : Memory) (sq : ℕ → AdminCommand) where
  pub silent_command :
      (eid : ℕ) (s : AdminQueue × Queues)
      → answers (sq eid).opcode ≡ false
      → admin_command mem eid (sq eid) s ≡ ok s
  unfolding admin_command
  silent_command eid s h = ground arith

  pub advance-IsAdminRing : (q : AdminQueue) → IsAdminRing q → IsAdminRing (advance_head q)
  unfolding advance_head
  advance-IsAdminRing q r = record {
    small = r.small;
    head = ground (arith, r.small, r.head);
    phase = ground (arith, r.phase);
  }

  advance_far :
      (q : AdminQueue) → IsAdminRing q → 1 < q.cq_depth → q.cq_head ≢ (advance_head q).cq_head
  unfolding advance_head
  advance_far q r h = ground (arith, r.small, r.head)

  advance_ring :
      (q : AdminQueue)
      → ((advance_head q).nvme_sq ≡ q.nvme_sq)
        × ((advance_head q).nvme_cq ≡ q.nvme_cq)
        × ((advance_head q).cq_depth ≡ q.cq_depth)
  unfolding advance_head
  advance_ring q = (refl, refl, refl)

  -- For an admin queue with at least two completion entries, whose host has read everything: a
  -- request that the driver does not answer (abort, get_features, firmware, format and security
  -- commands, and opcodes it does not know) succeeds and leaves the completion ring as it is, but
  -- for its head; and the answer to a following request, which the driver carries out, is not seen
  -- by the host, which goes on to find nothing new.
  pub silent_request-lost :
      (eid eid2 : ℕ) (q : AdminQueue) (d : Queues) (cq : ℕ → Completion) (r : Reader)
      → IsAdminRing q
      → 1 < q.cq_depth
      → q.nvme_sq ≡ some sq
      → q.nvme_cq ≡ some cq
      → answers (sq eid).opcode ≡ false
      → answers (sq eid2).opcode ≡ true
      → IsLegal (sq eid2) d
      → Holds [] (admin_ring q cq) r
      → (proc_admin_req mem eid (q, d) ≡ ok (advance_head q, d))
        × (read (admin_ring (advance_head q) cq) r ≡ none)
        × (s' : AdminQueue × Queues) × (proc_admin_req mem eid2 (advance_head q, d) ≡ ok s')
        × (a : Answers (sq eid2) (advance_head q) s'.0 cq) × (read (admin_ring s'.0 a.entries) r
            ≡ none)
  silent_request-lost eid eid2 q d cq r ring big esq ecq silent known legal h =
      let t = advance_head q in
      let kept = advance_ring q in
      let second =
        request-Answers mem sq eid2 t d cq (advance-IsAdminRing q ring) (kept.0 ∙ esq)
          (kept.1 ∙ ecq) known legal in
      let here : r.at ≡ q.cq_head = ground (arith, h.head, h.at) in
      let far : r.at ≢ t.cq_head = rw here (advance_far q ring big) in
      (
        request-eq mem sq eid q d (q, d) esq (silent_command eid (q, d) silent),
        not_new (admin_ring q cq) (admin_ring t cq) r h refl,
        second.0,
        second.1,
        second.2,
        not_new (admin_ring q cq) _ r h (second.2.pushed.other r.at far),
      )
