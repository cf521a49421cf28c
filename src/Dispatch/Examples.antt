-- ===== src/Dispatch/Examples.antt =====
-- Concrete runs of the dispatcher's parts.
use femu_on_virt.Base.{
  ◌*◌, ◌≡◌, ◌↔◌, refl, true, false, none, ◌⊎◌, fault, List, [], ◌∷◌, ok, w64, arith, ℕ, ◌≤◌,
  minus_one32, ◌==◌, if◌then◌else◌,
}
use femu_on_virt.Dispatch.Types.{ProcTable, ProcInfo, Completion, CompletionQueue}
use femu_on_virt.Dispatch.Prp.{PrpCommand, Copy, do_perform_io}
use femu_on_virt.Dispatch.Transfer.{
  Covers, overruns, Aligned, IsAligned, do_perform_io-Covers, do_perform_io-stale,
}
use femu_on_virt.Base.{Option, some}
use femu_on_virt.Dispatch.Release.{read_entries, less}
use femu_on_virt.Dispatch.Ring.{IsRing, Done, fill_all, IsFilled, fill_all-IsFilled}
use femu_on_virt.Dispatch.Table.{insert_request}
use femu_on_virt.Dispatch.Insert.{InFlight, due, Descends, inserted, insert_request-InFlight}
use femu_on_virt.Host.Reader.{read}
use femu_on_virt.Dispatch.Completions.{completion_status, fill_cq_result}
use femu_on_virt.Dispatch.Delivery.{
  Link, Delivers, ring_of, completes, reads, Reach, start, extend, Reach-Delivers,
}
use femu_on_virt.Dispatch.Doorbell.{IsAnnounced, num_proc-IsAnnounced}

-- 8 KB from LBA 16, on the host pages 5 and 9.
abbrev two_pages : PrpCommand
two_pages = record { slba = 16; length = 15; prp1 = 20480; prp2 = 36864 }

do_perform_io-Covers_example :
    ((overruns two_pages ≡ true) × (do_perform_io two_pages (λ _. 0) 8193 ≡ fault))
    ⊎ ((overruns two_pages ≡ false)
        × ((cs : List Copy) × (do_perform_io two_pages (λ _. 0) 8193 ≡ ok (cs, 16 * 512))
            × Covers (w64 (16 * 512)) (16 * 512) cs
            × (IsAligned two_pages (λ _. 0) → Aligned cs)))
do_perform_io-Covers_example = do_perform_io-Covers two_pages (λ _. 0) 8193 (omega arith)

-- The second page's address is inside of a page, so that the command's end is on a third one.
overruns_example : overruns (record two_pages { prp2 = 37376 }) ≡ true
overruns_example = refl

-- 4 KB from LBA 16, of which 3 KB are at the end of the host page 5, and 1 KB is on page 9.
abbrev across : PrpCommand
across = record { slba = 16; length = 7; prp1 = 21504; prp2 = 36864 }

do_perform_io-stale_example :
    do_perform_io across (λ _. 0) 3
    ≡ ok (
      record { pfn = 5; mem_offs = 1024; offset = 8192; io_size = 3072 }
          ∷ record { pfn = 9; mem_offs = 1024; offset = 11264; io_size = 1024 }
          ∷ [],
      4096,
    )
do_perform_io-stale_example = do_perform_io-stale across (λ _. 0) 0 refl (omega arith) refl

abbrev no_completion : Completion
no_completion = record { result = 0; rsvd = 0; command_id = 0; sq_id = 0; sq_head = 0; status = 0 }

-- A queue of four entries, whose head is at the last one.
abbrev ring : CompletionQueue
ring = record {
  qid = 1;
  irq_vector = 1;
  irq_enabled = true;
  interrupt_ready = false;
  phys_contig = true;
  queue_size = 4;
  phase = 1;
  cq_head = 3;
  cq_tail = 2;
  cq = λ _. no_completion;
}

ring-IsRing : IsRing ring
ring-IsRing = record { size = omega arith; head = omega arith; phase = omega arith }

abbrev batch : List Done
batch =
    record { sqid = 1; sq_entry = 5; command_id = 11 }
    ∷ record { sqid = 2; sq_entry = 6; command_id = 12 }
    ∷ []

fill_all-IsFilled_example : IsFilled batch ring (fill_all batch ring)
fill_all-IsFilled_example = fill_all-IsFilled batch ring ring-IsRing (omega arith)

num_proc-IsAnnounced_example : IsAnnounced 8 2 6
num_proc-IsAnnounced_example = num_proc-IsAnnounced 8 2 6 (omega arith) (omega arith) (omega arith)

abbrev row : ℕ → ℕ → ℕ → ProcTable
row target next prev = record {
  sqid = 1;
  cqid = 1;
  sq_entry = 0;
  command_id = 0;
  nsecs_start = 0;
  nsecs_target = target;
  nsecs_enqueue = 0;
  nsecs_copy_start = 0;
  nsecs_copy_done = 0;
  nsecs_cq_filled = 0;
  is_copied = false;
  is_completed = false;
  next = next;
  prev = prev;
}

-- Request 0 is due at 100 and request 1 at 300; request 2, due at 200, is not linked.
abbrev table : ProcInfo
table = record {
  proc_table = λ i.
      if i == 0
      then row 100 1 minus_one32
      else if i == 1
      then row 300 minus_one32 0
      else row 200 minus_one32 minus_one32;
  free_seq = 3;
  free_seq_end = 16383;
  io_seq = 0;
  io_seq_end = 1;
  proc_io_nsecs = 50;
}

table-InFlight : InFlight table (1 ∷ 0 ∷ [])
table-InFlight = record {
  back = (refl, omega arith, (refl, omega arith, refl));
  front = (refl, (refl, refl));
  distinct = (refl, (refl, tt));
}

insert_request-InFlight_example :
    (pi' : ProcInfo) × (insert_request 3 2 200 table ≡ ok pi')
    × InFlight pi' (inserted table 2 (1 ∷ 0 ∷ []))
    × ((bound : ℕ)
        → due table 2 ≤ bound
        → Descends table bound (1 ∷ 0 ∷ [])
        → Descends pi' bound (inserted table 2 (1 ∷ 0 ∷ [])))
insert_request-InFlight_example =
    insert_request-InFlight 2 3 table 1 (0 ∷ []) table-InFlight (omega arith) refl (refl, refl)
      (omega arith)

-- The new request is between the two.
inserted_example : inserted table 2 (1 ∷ 0 ∷ []) ≡ 1 ∷ 2 ∷ 0 ∷ []
inserted_example = refl

-- A new queue of four entries, whose host has read nothing.
abbrev idle : Link
idle = record {
  cq = record ring { cq_head = 0 };
  reader = record { at = 0; expected = 1 };
  sent = [];
  received = [];
}

idle-Delivers : Delivers idle
idle-Delivers = record {
  pending = [];
  order = refl;
  ring = record {
    at = omega arith;
    expected = omega arith;
    few = omega arith;
    head = refl;
    phase = refl;
    command = λ k id e. cc e;
    new = λ k lt. absurd (omega arith);
    old = λ k le lt. ground arith;
  };
  small = omega arith;
}

-- Command 21 is completed and read, and then command 22 is completed.
abbrev busy : Link
unfolding fill_cq_result completion_status
busy = record {
  cq = fill_cq_result 1 6 22 (fill_cq_result 1 5 21 (record ring { cq_head = 0 }));
  reader = record { at = 1; expected = 1 };
  sent = 21 ∷ 22 ∷ [];
  received = 21 ∷ [];
}

idle-Reach : Reach idle busy
unfolding busy fill_cq_result completion_status read
idle-Reach =
    extend
      (extend (extend start (completes idle 1 5 21 (omega arith)))
        (reads _ 21 (record { at = 1; expected = 1 }) refl))
      (completes _ 1 6 22 (omega arith))

Reach-Delivers_example :
    Delivers busy × ((read (ring_of busy.cq) busy.reader ≡ none) ↔ (busy.received ≡ busy.sent))
Reach-Delivers_example = Reach-Delivers idle busy idle-Delivers idle-Reach

-- A queue of four entries, all of them completions of the submission queue 1, which has three requests
-- in flight; the host has read the entries 3 and 0.
abbrev read_ring : CompletionQueue
read_ring = record ring { cq = λ _. record no_completion { sq_id = 1 } }

abbrev counters : ℕ → Option ℕ
counters s = if s == 1 then some 3 else none

less_example : less read_ring 1 (read_entries 4 3 1) (counters 1) ≡ some 1
less_example = refl
