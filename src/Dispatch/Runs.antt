-- ===== src/Dispatch/Runs.antt =====
-- Concrete runs of the tables of requests.
use femu_on_virt.Base.{ℕ, ◌≡◌, refl, true, false, List, [], ◌∷◌, ok, arith}
use femu_on_virt.Dispatch.Types.{ProcInfo, CompletionQueue}
use femu_on_virt.Base.{
  Option, some, fault, ◌⊎◌, ◌<◌, contains, update, range, subst, sym, ok-injective, ◌∙◌,
}
use femu_on_virt.Dispatch.Table.{
  Procs, Request, nr_max_parallel_io, init_proc_info, write_request, insert_request, enqueue_io_req,
  reclaim_completed_reqs,
}
use femu_on_virt.Dispatch.Worker.{Transfer, Work, work_round}
use femu_on_virt.Dispatch.Lists.{HasLists, init-HasLists}
use femu_on_virt.Dispatch.Enqueue.{enqueued-HasLists}
use femu_on_virt.Dispatch.Steps.{SameLinks, SameLinks-HasLists}
use femu_on_virt.Dispatch.Reclaim.{gone, Tables, Reclaimed, reclaim_completed_reqs-Reclaimed}
use femu_on_virt.Dispatch.Parted.{AllParted}
use femu_on_virt.Dispatch.Served.{servable, served, handled}
use femu_on_virt.Dispatch.Service.{Serves, work_round-Serves}
use femu_on_virt.Dispatch.Reach.{Reach, start, enqueue, Reach-AllParted, Reach-ends}
use femu_on_virt.Driver.Start.{io_proc_init}

abbrev queue : CompletionQueue
queue = record {
  qid = 1;
  irq_vector = 1;
  irq_enabled = true;
  interrupt_ready = false;
  phys_contig = true;
  queue_size = 4;
  phase = 1;
  cq_head = 3;
  cq_tail = 2;
  cq = λ _. record { result = 0; rsvd = 0; command_id = 0; sq_id = 0; sq_head = 0; status = 0 };
}

-- Two workers, the first with one request, which is due at 100.
abbrev idle : Procs
idle = io_proc_init 2 (λ _. init_proc_info)

abbrev read_request : Request
read_request = record {
  sqid = 1;
  cqid = 1;
  sq_entry = 0;
  command_id = 7;
  nsecs_start = 0;
  nsecs_target = 100;
  nsecs_enqueue = 0;
}

abbrev one : ProcInfo
one = record (write_request 0 read_request (record init_proc_info { free_seq = 1 })) {
  io_seq = 0;
  io_seq_end = 0;
}

abbrev busy : Procs
busy = record idle { proc_info = update idle.proc_info 0 one; proc_turn = 1 }

busy_ran : enqueue_io_req nr_max_parallel_io read_request idle ≡ ok busy
unfolding io_proc_init init_proc_info enqueue_io_req insert_request write_request
busy_ran = refl

busy-Reach : Reach busy
busy-Reach =
    enqueue read_request idle busy (start 2 (λ _. init_proc_info) (omega arith) (omega arith))
      busy_ran

Reach-AllParted_example : AllParted busy
Reach-AllParted_example = Reach-AllParted busy busy-Reach

-- Every entry of every submission queue reads 8 KB from LBA 16 on, to the host pages 5 and 9.
abbrev read_entry : ℕ → ℕ → Option Transfer
read_entry sqid sq_entry = some (record {
  write = false;
  rw = record { slba = 16; length = 15; prp1 = 20480; prp2 = 36864 };
  prp_list = λ _. 0;
})

Reach-ends_example :
    ((d1 : Procs) × (enqueue_io_req nr_max_parallel_io read_request busy ≡ ok d1) × Reach d1)
    × ((d2 : Procs) × (reclaim_completed_reqs nr_max_parallel_io busy.nr_io_cpu 0 busy ≡ ok d2)
        × Reach d2)
    × (((work_round read_entry nr_max_parallel_io 1
              (λ _. 500)
              (record { pi = busy.proc_info 0; cqes = λ _. some queue; moved = [] })
            ≡ fault)
          × ((j : ℕ) × (j < nr_max_parallel_io)
              × (servable read_entry (busy.proc_info 0).proc_table (λ _. some queue) j ≡ false)))
        ⊎ ((v : List ℕ × Work) × (work_round read_entry nr_max_parallel_io 1
                (λ _. 500)
                (record { pi = busy.proc_info 0; cqes = λ _. some queue; moved = [] })
              ≡ ok v)
            × Reach (record busy { proc_info = update busy.proc_info 0 (v.1).pi })))
unfolding io_proc_init
Reach-ends_example =
    Reach-ends busy read_request read_entry 0 1 (λ _. 500) (λ _. some queue) [] busy-Reach
      (omega arith)

one_ran :
    insert_request nr_max_parallel_io 0 100
      (write_request 0 read_request (record init_proc_info { free_seq = 1 }))
    ≡ ok one
unfolding init_proc_info insert_request write_request
one_ran = refl

-- The request is copied and completed.
abbrev done_one : ProcInfo
done_one = record one {
  proc_table =
      update one.proc_table 0 (record (one.proc_table 0) { is_copied = true; is_completed = true });
  proc_io_nsecs = 500;
}

done-SameLinks : SameLinks one done_one
unfolding init_proc_info write_request
done-SameLinks = record {
  next = λ j. ground arith;
  prev = λ j. ground arith;
  free = refl;
  free_end = refl;
  io = refl;
  io_end = refl;
}

one-HasLists : HasLists one 1 (range 2 16382) (0 ∷ [])
one-HasLists =
    let (pi', ran, t) =
      enqueued-HasLists nr_max_parallel_io read_request init_proc_info 0 1 (range 2 16382) []
        (init-HasLists 16383 (omega arith)) (omega arith) in
    subst (λ p. HasLists p 1 (range 2 16382) (0 ∷ [])) (ok-injective (sym ran ∙ one_ran)) t

abbrev finished : Procs
finished = record busy { proc_info = λ _. done_one }

finished-Tables : Tables (λ _. 1) (λ _. range 2 16382) (λ _. 0 ∷ []) finished.proc_info 0 2
finished-Tables = record {
  table = λ i a b.
      SameLinks-HasLists one done_one 1 (range 2 16382) (0 ∷ []) done-SameLinks one-HasLists;
}

reclaim_completed_reqs-Reclaimed_example :
    (d' : Procs) × (reclaim_completed_reqs 2 2 0 finished ≡ ok d')
    × Reclaimed 2 (λ _. 1) (λ _. range 2 16382) (λ _. 0 ∷ []) 0 2 finished d'
reclaim_completed_reqs-Reclaimed_example =
    reclaim_completed_reqs-Reclaimed 2 (λ _. 1) (λ _. range 2 16382) (λ _. 0 ∷ []) 2 0 finished
      finished-Tables (λ i. omega arith)

-- The request goes to the end of the free list.
gone_example : gone done_one (0 ∷ []) ≡ 0 ∷ []
unfolding init_proc_info write_request
gone_example = refl

abbrev begun : Work
begun = record { pi = one; cqes = λ _. some queue; moved = [] }

begun_able :
    (i : ℕ) → contains i (0 ∷ []) ≡ true → servable read_entry one.proc_table begun.cqes i ≡ true
begun_able i there = refl

work_round-Serves_example :
    (v : List ℕ × Work) × (work_round read_entry 3 1 (λ _. 500) begun ≡ ok v)
    × Serves read_entry (λ _. 500) (0 ∷ []) begun v.1
work_round-Serves_example =
    work_round-Serves read_entry 3 1 (λ _. 500) begun 1 (range 2 16382) (0 ∷ []) one-HasLists
      (omega arith) begun_able

-- The request is due at 100: a round at 500 completes it, and one at 50 only makes its copies.
served_example : served one.proc_table (λ _. 500) 0 (0 ∷ []) ≡ 0 ∷ []
unfolding write_request init_proc_info
served_example = refl

not_yet_example :
    (served one.proc_table (λ _. 50) 0 (0 ∷ []) ≡ [])
    × (handled one.proc_table (λ _. 50) 0 (0 ∷ []) ≡ 0 ∷ [])
unfolding write_request init_proc_info
not_yet_example = (refl, refl)
