-- ===== src/Dispatch/Reach.antt =====
-- The tables of requests over any sequence of the dispatcher's and the workers' rounds, each taken as
-- one step.
use femu_on_virt.Base.{ℕ, ◌<◌, ◌^◌, ◌≡◌, subst, sym, ◌∙◌, List, ok, ok-injective, arith, update}
use femu_on_virt.Dispatch.Types.{ProcInfo, CompletionQueue}
use femu_on_virt.Dispatch.Table.{
  nr_max_parallel_io, Request, Procs, enqueue_io_req, reclaim_completed_reqs,
}
use femu_on_virt.Dispatch.Worker.{Transfer, Moved, Work, work_round}
use femu_on_virt.Base.{Option, fault, ◌⊎◌, inl, inr, false}
use femu_on_virt.Dispatch.Served.{servable}
use femu_on_virt.Driver.Start.{io_proc_init}
use femu_on_virt.Dispatch.Parted.{
  AllParted, start-AllParted, enqueue-AllParted, reclaims-AllParted, work-AllParted,
}

-- The tables that rounds of the dispatcher and of the workers reach from NVMEV_IO_PROC_INIT on.
pub data Reach : Procs → Type 0 where
  start : (n : ℕ) (old : ℕ → ProcInfo) → 0 < n → n < 2 ^ 32 → Reach (io_proc_init n old)
  enqueue :
      (r : Request) (d d' : Procs)
      → Reach d
      → enqueue_io_req nr_max_parallel_io r d ≡ ok d'
      → Reach d'
  reclaim :
      (d d' : Procs)
      → Reach d
      → reclaim_completed_reqs nr_max_parallel_io d.nr_io_cpu 0 d ≡ ok d'
      → Reach d'
  work :
      (source : ℕ → ℕ → Option Transfer) (i nr_cq : ℕ) (clock : ℕ → ℕ)
      (cqes : ℕ → Option CompletionQueue) (moved : List Moved) (vectors : List ℕ) (d : Procs)
      (w : Work)
      → Reach d
      → i < d.nr_io_cpu
      → work_round source nr_max_parallel_io nr_cq clock
          (record { pi = d.proc_info i; cqes = cqes; moved = moved })
        ≡ ok (vectors, w)
      → Reach (record d { proc_info = update d.proc_info i w.pi })

-- From NVMEV_IO_PROC_INIT for at least one and fewer than 2^32 workers on, whatever rounds of
-- __enqueue_io_req, __reclaim_completed_reqs and of the workers follow one another: the turn is a
-- worker, and in each worker's table every one of the 16384 entries is once in the free list,
-- which keeps at least one entry, or among the requests in flight; the free list is a chain from
-- free_seq to free_seq_end, and the requests in flight are a doubly linked chain from io_seq to
-- io_seq_end.
pub Reach-AllParted : (d : Procs) → Reach d → AllParted d
Reach-AllParted d (start n old h few) = start-AllParted n old h few
Reach-AllParted d (enqueue r d0 d1 reach ran) =
    let (d2, ran2, all, count) = enqueue-AllParted r d0 (Reach-AllParted d0 reach) in
    subst AllParted (ok-injective (sym ran2 ∙ ran)) all
Reach-AllParted d (reclaim d0 d1 reach ran) =
    let (d2, ran2, all, count) =
      reclaims-AllParted d0.nr_io_cpu 0 d0 (Reach-AllParted d0 reach) (omega arith) in
    subst AllParted (ok-injective (sym ran2 ∙ ran)) all
Reach-AllParted d (work source i nr_cq clock cqes moved vectors d0 w reach lt ran) =
    elim (work-AllParted source i nr_cq clock cqes moved d0 (Reach-AllParted d0 reach) lt) [
      | inl o ↦ cc (o.0, ran)
      | inr o ↦
          let (v, ran2, all) = o in
          subst
            (λ (x : List ℕ × Work).
              AllParted (record d0 { proc_info = update d0.proc_info i (x.1).pi }))
            (ok-injective (sym ran2 ∙ ran)) all
    ]

-- On the tables reached, the loops of __enqueue_io_req and of __reclaim_completed_reqs end within
-- as many rounds as a table has entries, and the tables are reached again. So does a worker's
-- round, unless it dereferences NULL; then there is an entry of the table whose submission or
-- completion queue is gone, or whose transfer needs a list of addresses that is not mapped.
pub Reach-ends :
    (d : Procs) (r : Request) (source : ℕ → ℕ → Option Transfer) (i nr_cq : ℕ) (clock : ℕ → ℕ)
    (cqes : ℕ → Option CompletionQueue) (moved : List Moved)
    → Reach d
    → i < d.nr_io_cpu
    → ((d1 : Procs) × (enqueue_io_req nr_max_parallel_io r d ≡ ok d1) × Reach d1)
      × ((d2 : Procs) × (reclaim_completed_reqs nr_max_parallel_io d.nr_io_cpu 0 d ≡ ok d2)
          × Reach d2)
      × (((work_round source nr_max_parallel_io nr_cq clock
                (record { pi = d.proc_info i; cqes = cqes; moved = moved })
              ≡ fault)
            × ((j : ℕ) × (j < nr_max_parallel_io)
                × (servable source (d.proc_info i).proc_table cqes j ≡ false)))
          ⊎ ((v : List ℕ × Work) × (work_round source nr_max_parallel_io nr_cq clock
                  (record { pi = d.proc_info i; cqes = cqes; moved = moved })
                ≡ ok v)
              × Reach (record d { proc_info = update d.proc_info i (v.1).pi })))
Reach-ends d r source i nr_cq clock cqes moved reach lt =
    let all = Reach-AllParted d reach in
    let (d1, ran1, a1, c1) = enqueue-AllParted r d all in
    let (d2, ran2, a2, c2) = reclaims-AllParted d.nr_io_cpu 0 d all (omega arith) in
    (
      (d1, ran1, enqueue r d d1 reach ran1),
      (d2, ran2, reclaim d d2 reach ran2),
      elim (work-AllParted source i nr_cq clock cqes moved d all lt) [
        | inl o ↦ inl o
        | inr o ↦
            inr (o.0, o.1, work source i nr_cq clock cqes moved (o.0).0 d (o.0).1 reach lt o.1)
      ],
    )
