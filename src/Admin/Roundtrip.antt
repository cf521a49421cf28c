-- ===== src/Admin/Roundtrip.antt =====
-- Creation and deletion of a queue, and the new completion queue as the host uses it.
use femu_on_virt.Base.{
  ℕ, ◌+◌, ◌-◌, ◌*◌, ◌%◌, ◌≤◌, ◌<◌, ◌≡◌, ◌≢◌, refl, sym, ◌∙◌, ap, some, none, ok, ltb-false,
  update-at, update-other, update_back, update, arith, [],
}
use femu_on_virt.Dispatch.Types.{Completion, CompletionQueue}
use femu_on_virt.Host.Reader.{tag}
use femu_on_virt.Dispatch.Delivery.{Link, Delivers}
use femu_on_virt.Admin.Types.{
  AdminCommand, AdminQueue, Memory, Queues, low, high, nr_max_io_queue, respond,
}
use femu_on_virt.Admin.Queues.{new_cq, create_cq, delete_cq}
use femu_on_virt.Admin.Answers.{with_ring, with_ring-eq}

-- The completion queue that a creation leaves, with a host that has not read it yet.
abbrev pub fresh_link : CompletionQueue → Link
fresh_link cq = record {
  cq = cq;
  reader = record { at = 0; expected = 1 };
  sent = [];
  received = [];
}

pub record Created (cmd : AdminCommand) (d d' : Queues) : Type 0 where
  pub cq : CompletionQueue
  pub there : d'.cqes (low cmd.dword10) ≡ some cq
  pub size : cq.queue_size ≡ high cmd.dword10 + 1
  pub delivers : Delivers (fresh_link cq)
  pub doorbell : d'.dbs (low cmd.dword10 * 2 + 1) ≡ d'.old_dbs (low cmd.dword10 * 2 + 1)
  pub others : (i : ℕ) → i ≢ low cmd.dword10 → d'.cqes i ≡ d.cqes i

fresh_tag : (size k : ℕ) → k < size → 1 - tag size (record { at = 0; expected = 1 }) k ≡ 0
fresh_tag size k lt = ground arith

new_cq-Delivers :
    (mem : Memory) (cmd : AdminCommand)
    → ((pfn i : ℕ) → (mem.completions pfn i).status % 2 ≡ 0)
    → Delivers (fresh_link (new_cq mem cmd))
unfolding new_cq low high
new_cq-Delivers mem cmd zeros = record {
  pending = [];
  order = refl;
  ring = record {
    at = ground arith;
    expected = omega arith;
    few = omega arith;
    head = ground arith;
    phase = ground arith;
    command = λ k id e. cc e;
    new = λ k lt. absurd (omega arith);
    old = λ k le lt. zeros _ _ ∙ sym (fresh_tag (high cmd.dword10 + 1) k lt);
  };
  small = ground arith;
}

module _ (mem : Memory) (eid : ℕ) (cmd : AdminCommand) (q : AdminQueue) (d : Queues)
    (cq : ℕ → Completion) (few : low cmd.dword10 ≤ nr_max_io_queue) where
  created :
      (s : AdminQueue × Queues) × (create_cq mem eid cmd (with_ring q cq, d) ≡ ok s)
      × (s.1 ≡ record d {
        cqes = update d.cqes (low cmd.dword10) (some (new_cq mem cmd));
        dbs = update d.dbs (low cmd.dword10 * 2 + 1) 0;
        old_dbs = update d.old_dbs (low cmd.dword10 * 2 + 1) 0;
      })
      × ((ring : ℕ → Completion) × (s.0.nvme_cq ≡ some ring))
  unfolding create_cq respond new_cq
  created = rw (ltb-false nr_max_io_queue (low cmd.dword10) few) (_, refl, refl, (_, refl))

  new_size : (new_cq mem cmd).queue_size ≡ high cmd.dword10 + 1
  unfolding new_cq
  new_size = refl

-- Deleting a queue that is there empties its place.
deleted :
    (eid : ℕ) (cmd : AdminCommand) (q : AdminQueue) (d : Queues) (ring : ℕ → Completion)
    (cq : CompletionQueue)
    → q.nvme_cq ≡ some ring
    → low cmd.dword10 ≤ nr_max_io_queue
    → d.cqes (low cmd.dword10) ≡ some cq
    → (s : AdminQueue × Queues) × (delete_cq eid cmd (q, d) ≡ ok s)
      × (s.1.cqes ≡ update d.cqes (low cmd.dword10) none)
unfolding delete_cq respond
deleted eid cmd q d ring cq e few there =
    rw (ltb-false nr_max_io_queue (low cmd.dword10) few, there, e) (_, refl, refl)

-- In a host's memory where the entries of new pages have phase 0, for a completion queue whose id
-- is at most 72 and not in use, create_cq succeeds: the queue stands at its id with the size that
-- the 0-based field asks for, its doorbell is equal to the old one, a host that starts to read it
-- at entry 0 with phase 1 finds what is completed, and no other completion queue changes. The
-- deletion of that id then succeeds and leaves the completion queues as they were before.
pub create_cq-delete_cq :
    (mem : Memory) (eid eid2 : ℕ) (cmd cmd2 : AdminCommand) (q : AdminQueue) (d : Queues)
    (cq : ℕ → Completion)
    → ((pfn i : ℕ) → (mem.completions pfn i).status % 2 ≡ 0)
    → q.nvme_cq ≡ some cq
    → low cmd.dword10 ≤ nr_max_io_queue
    → d.cqes (low cmd.dword10) ≡ none
    → low cmd2.dword10 ≡ low cmd.dword10
    → (s : AdminQueue × Queues) × (create_cq mem eid cmd (q, d) ≡ ok s)
      × Created cmd d s.1
      × (s2 : AdminQueue × Queues) × (delete_cq eid2 cmd2 s ≡ ok s2)
      × ((i : ℕ) → s2.1.cqes i ≡ d.cqes i)
create_cq-delete_cq mem eid eid2 cmd cmd2 q d cq zeros ecq few absent same =
    let c = created mem eid cmd q d cq few in
    let qid = low cmd.dword10 in
    let at = qid * 2 + 1 in
    let new = new_cq mem cmd in
    let cqes : c.0.1.cqes ≡ update d.cqes qid (some new) = ap (λ (x : Queues). x.cqes) c.2 in
    let there : c.0.1.cqes qid ≡ some new =
      ap (λ f. f qid) cqes ∙ update-at d.cqes qid (some new) in
    let gone =
      deleted eid2 cmd2 c.0.0 c.0.1 c.3.0 new c.3.1 (rw same few) (ap c.0.1.cqes same ∙ there) in
    (
      c.0,
      ap (λ x. create_cq mem eid cmd (x, d)) (sym (with_ring-eq q cq ecq)) ∙ c.1,
      record {
        cq = new;
        there = there;
        size = new_size mem eid cmd q d cq few;
        delivers = new_cq-Delivers mem cmd zeros;
        doorbell =
            ap (λ (x : Queues). x.dbs at) c.2
            ∙ update-at d.dbs at 0
            ∙ sym (update-at d.old_dbs at 0)
            ∙ sym (ap (λ (x : Queues). x.old_dbs at) c.2);
        others = λ i ne. ap (λ f. f i) cqes ∙ update-other d.cqes qid (some new) i ne;
      },
      gone.0,
      gone.1,
      λ i.
          ap (λ f. f i) gone.2
          ∙ ap (λ k. update c.0.1.cqes k none i) same
          ∙ ap (λ f. update f qid none i) cqes
          ∙ update_back d.cqes qid (some new) none absent i,
    )
