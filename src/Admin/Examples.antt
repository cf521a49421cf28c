-- ===== src/Admin/Examples.antt =====
-- Concrete runs of the admin queue.
use femu_on_virt.Base.{
  ℕ, ◌+◌, ◌*◌, ◌^◌, ◌<◌, ◌≡◌, refl, some, none, [], ◌∷◌, ok, arith, inl, inr, ◌==◌, if◌then◌else◌,
}
use femu_on_virt.Dispatch.Types.{Completion}
use femu_on_virt.Dispatch.Commands.{num_proc}
use femu_on_virt.Host.Reader.{Reader, Holds, read, drain}
use femu_on_virt.Admin.Types.{
  AdminCommand, AdminQueue, Memory, Queues, advance_head, low, nr_max_io_queue,
}
use femu_on_virt.Admin.Queues.{create_cq, delete_cq}
use femu_on_virt.Admin.Identify.{set_features}
use femu_on_virt.Admin.Requests.{proc_admin_req, proc_admin_sq}
use femu_on_virt.Admin.Progress.{IsLegal}
use femu_on_virt.Admin.Delivery.{admin_ring, IsAdminRing, Answers}
use femu_on_virt.Admin.Batch.{Delivered, proc_admin_sq-Delivered}
use femu_on_virt.Admin.Silent.{silent_request-lost}
use femu_on_virt.Admin.Features.{Granted, set_features-Granted}
use femu_on_virt.Admin.Roundtrip.{Created, create_cq-delete_cq}

abbrev blank : Completion
blank = record { result = 0; rsvd = 0; command_id = 0; sq_id = 0; sq_head = 0; status = 0 }

abbrev memory : Memory
memory = record {
  admin_commands =
      λ pfn i. record { opcode = 0; command_id = i; prp1 = 0; dword10 = 0; dword11 = 0 };
  commands = λ pfn i. record { opcode = 2; command_id = i; rw = record { slba = i; length = 0 } };
  completions = λ pfn i. blank;
}

abbrev command : ℕ → ℕ → ℕ → ℕ → AdminCommand
command opcode id dword10 dword11 = record {
  opcode = opcode;
  command_id = id;
  prp1 = 2 ^ 20;
  dword10 = dword10;
  dword11 = dword11;
}

-- Command 0 asks for 8 and 8 queues, 1 is an abort, 2 asks for the namespace, 3 for a log page.
abbrev commands : ℕ → AdminCommand
commands i =
    if i == 0
    then command 0x09 70 7 (7 * 2 ^ 16 + 7)
    else if i == 1
    then command 0x08 71 0 0
    else if i == 2
    then command 0x06 72 0 0
    else command 0x02 73 0 0

abbrev no_entries : ℕ → Completion
no_entries i = blank

abbrev queue : AdminQueue
queue = record {
  phase = 1;
  sq_depth = 4;
  cq_depth = 4;
  cq_head = 0;
  nvme_sq = some commands;
  nvme_cq = some no_entries;
}

abbrev queues : Queues
queues = record {
  nr_sq = 0;
  nr_cq = 0;
  sqes = λ i. none;
  cqes = λ i. none;
  dbs = λ i. 0;
  old_dbs = λ i. 0;
  storage_size = 2 ^ 30;
  pages = λ i. none;
}

abbrev host : Reader
host = record { at = 0; expected = 1 }

queue-IsAdminRing : IsAdminRing queue
queue-IsAdminRing = record { small = omega arith; head = omega arith; phase = omega arith }

nothing-Holds : Holds [] (admin_ring queue no_entries) host
nothing-Holds = record {
  at = omega arith;
  expected = omega arith;
  few = omega arith;
  head = refl;
  phase = refl;
  command = λ k id e. cc e;
  new = λ k lt. absurd (omega arith);
  old = λ k le lt. ground arith;
}

legal : (d : Queues) (cmd : AdminCommand) → 5 < cmd.opcode → IsLegal cmd d
legal d cmd h = record {
  create = λ c. elim c [ inl e ↦ absurd (omega arith) | inr e ↦ absurd (omega arith) ];
  delete_sq = λ e. absurd (omega arith);
  delete_cq = λ e. absurd (omega arith);
}

-- The namespace and the log page, from entry 2 to the end of the ring.
proc_admin_sq-Delivered_example :
    (e : Delivered (72 ∷ []) host (proc_admin_sq memory 3 2 (queue, queues))) × (drain 2
        (admin_ring e.end.0 e.entries)
        host
      ≡ 72 ∷ [])
unfolding num_proc
proc_admin_sq-Delivered_example =
    proc_admin_sq-Delivered memory commands 3 2 queue queues no_entries [] host queue-IsAdminRing
      (omega arith) (omega arith) (omega arith) refl refl
      (refl, legal queues (commands 2) (omega arith), λ s' e. tt) nothing-Holds (omega arith)

-- The host waits for the answers to the abort and to the identification behind it.
silent_request-lost_example :
    (proc_admin_req memory 1 (queue, queues) ≡ ok (advance_head queue, queues))
    × (read (admin_ring (advance_head queue) no_entries) host ≡ none)
    × (s' : AdminQueue × Queues) × (proc_admin_req memory 2 (advance_head queue, queues) ≡ ok s')
    × (a : Answers (commands 2) (advance_head queue) s'.0 no_entries) × (read
          (admin_ring s'.0 a.entries)
          host
        ≡ none)
silent_request-lost_example =
    silent_request-lost memory commands 1 2 queue queues no_entries host queue-IsAdminRing
      (omega arith) refl refl refl refl (legal queues (commands 2) (omega arith)) nothing-Holds

set_features-Granted_example :
    (s' : AdminQueue × Queues) × (set_features 0 (commands 0) (queue, queues) ≡ ok s')
    × Granted (commands 0) queue s'.0 queues s'.1
set_features-Granted_example = set_features-Granted 0 (commands 0) queue queues no_entries refl refl

-- A completion queue of 256 entries with the id 3.
abbrev creation : AdminCommand
creation = command 0x05 80 (255 * 2 ^ 16 + 3) 3

abbrev deletion : AdminCommand
deletion = command 0x04 81 3 0

create_cq-delete_cq_example :
    (s : AdminQueue × Queues) × (create_cq memory 0 creation (queue, queues) ≡ ok s)
    × Created creation queues s.1
    × (s2 : AdminQueue × Queues) × (delete_cq 1 deletion s ≡ ok s2)
    × ((i : ℕ) → s2.1.cqes i ≡ queues.cqes i)
unfolding low nr_max_io_queue
create_cq-delete_cq_example =
    create_cq-delete_cq memory 0 1 creation deletion queue queues no_entries (λ pfn i. refl) refl
      (omega arith) refl refl
