-- ===== src/Dispatch/Parted.antt =====
-- The tables of requests of all workers, and what each round of the dispatcher and of a worker does to
-- them.
use femu_on_virt.Base.{
  ℕ, zero, suc, ◌+◌, ◌-◌, ◌<◌, ◌≤◌, ◌^◌, ◌≡◌, refl, subst, sym, ap, ◌∙◌, false, Bool-cases, inl,
  inr, List, [], ◌∷◌, ◌++◌, length, length-append, range, ok, arith, ◌==◌, leb, if◌then◌else◌,
  update, inc32, lt→ltb, minus_one32,
}
use femu_on_virt.Dispatch.Types.{ProcInfo, CompletionQueue}
use femu_on_virt.Dispatch.Table.{
  nr_max_parallel_io, Request, Procs, insert_request, write_request, enqueue_io_req,
  reclaim_completed_reqs,
}
use femu_on_virt.Dispatch.Worker.{Transfer, Moved, Work, work_round}
use femu_on_virt.Dispatch.Lists.{HasLists, init-HasLists}
use femu_on_virt.Dispatch.Reclaim.{reclaim_proc-HasLists, gone, kept}
use femu_on_virt.Dispatch.Enqueue.{enqueued-HasLists}
use femu_on_virt.Dispatch.Steps.{SameLinks-HasLists}
use femu_on_virt.Dispatch.Served.{servable}
use femu_on_virt.Dispatch.Service.{work_round-ends}
use femu_on_virt.Base.{Option, fault, ◌⊎◌, contains-append}
use femu_on_virt.Driver.Start.{io_proc_init}

-- Every entry of a table is free or in flight, and not both.
pub record IsParted (pi : ProcInfo) : Type 0 where
  pub first : ℕ
  pub frees : List ℕ
  pub ids : List ℕ
  pub lists : HasLists pi first frees ids

pub record AllParted (d : Procs) : Type 0 where
  pub turn : d.proc_turn < d.nr_io_cpu
  pub few : d.nr_io_cpu < 2 ^ 32
  pub parted : (i : ℕ) → i < d.nr_io_cpu → IsParted (d.proc_info i)

-- The fuel that is enough for the loops along a table.
enough : (pi : ProcInfo) (p : IsParted pi) → length p.ids < nr_max_parallel_io
enough pi p =
    let count = p.lists.count in omega (arith, count, length-append (p.first ∷ p.frees) p.ids)

set-AllParted :
    (d : Procs) (i : ℕ) (pi : ProcInfo)
    → AllParted d
    → IsParted pi
    → AllParted (record d { proc_info = update d.proc_info i pi })
set-AllParted d i pi a p = record {
  turn = a.turn;
  few = a.few;
  parted = λ j lt. elim (Bool-cases (i == j)) [ inl e ↦ rw e p | inr e ↦ rw e (a.parted j lt) ];
}

-- NVMEV_IO_PROC_INIT
pub start-AllParted :
    (n : ℕ) (old : ℕ → ProcInfo) → 0 < n → n < 2 ^ 32 → AllParted (io_proc_init n old)
unfolding io_proc_init
start-AllParted n old h few = record {
  turn = h;
  few = few;
  parted = λ i lt. subst IsParted (sym (rw (lt→ltb i n lt) refl)) (record {
    first = 0;
    frees = range 1 (nr_max_parallel_io - 1);
    ids = [];
    lists = init-HasLists (nr_max_parallel_io - 1) (omega arith);
  });
}

next_turn : (turn n : ℕ) → turn < n → n < 2 ^ 32 → (if inc32 turn == n then 0 else inc32 turn) < n
next_turn turn n h few = ground (arith, h, few)

-- __enqueue_io_req takes the first free entry, unless it is the last one.
module _ (r : Request) (d : Procs) (a : AllParted d) (f : ℕ) where
  abbrev table : ProcInfo
  table = d.proc_info d.proc_turn

  last_free :
      (ids : List ℕ)
      → HasLists table f [] ids
      → enqueue_io_req nr_max_parallel_io r d
        ≡ ok (record d { proc_info = update d.proc_info d.proc_turn table })
  unfolding enqueue_io_req
  last_free ids t =
      let end : (table.proc_table table.free_seq).next ≡ minus_one32 =
        ap (λ e. (table.proc_table e).next) t.free.0 ∙ t.free.2 in
      rw end refl

  with_free :
      (g : ℕ) (fs ids : List ℕ) (pi' : ProcInfo)
      → HasLists table f (g ∷ fs) ids
      → insert_request nr_max_parallel_io f r.nsecs_target
          (write_request f r (record table { free_seq = g }))
        ≡ ok pi'
      → enqueue_io_req nr_max_parallel_io r d
        ≡ ok (record d {
          proc_info = update d.proc_info d.proc_turn pi';
          proc_turn = if inc32 d.proc_turn == d.nr_io_cpu then 0 else inc32 d.proc_turn;
        })
  unfolding enqueue_io_req
  with_free g fs ids pi' t ran =
      let next : (table.proc_table f).next ≡ g = t.free.2.0 in
      let more : leb nr_max_parallel_io g ≡ false = ground (arith, t.inside g (ground arith)) in
      rw (t.free.0, next, more, ran) refl

  enqueue_parted :
      (frees ids : List ℕ)
      → HasLists table f frees ids
      → length ids < nr_max_parallel_io
      → (d' : Procs) × (enqueue_io_req nr_max_parallel_io r d ≡ ok d')
        × AllParted d'
        × (d'.nr_io_cpu ≡ d.nr_io_cpu)
  enqueue_parted [] ids t h = (
    record d { proc_info = update d.proc_info d.proc_turn table },
    last_free ids t,
    set-AllParted d d.proc_turn table a (record { first = f; frees = []; ids = ids; lists = t }),
    refl,
  )
  enqueue_parted (g ∷ fs) ids t h =
      let (pi', ran, lists) = enqueued-HasLists nr_max_parallel_io r table f g fs ids t h in
      let all =
        set-AllParted d d.proc_turn pi' a
          (record { first = g; frees = fs; ids = _; lists = lists }) in
      (
        record d {
          proc_info = update d.proc_info d.proc_turn pi';
          proc_turn = if inc32 d.proc_turn == d.nr_io_cpu then 0 else inc32 d.proc_turn;
        },
        with_free g fs ids pi' t ran,
        record {
          turn = next_turn d.proc_turn d.nr_io_cpu a.turn a.few;
          few = a.few;
          parted = all.parted;
        },
        refl,
      )

pub enqueue-AllParted :
    (r : Request) (d : Procs)
    → AllParted d
    → (d' : Procs) × (enqueue_io_req nr_max_parallel_io r d ≡ ok d')
      × AllParted d'
      × (d'.nr_io_cpu ≡ d.nr_io_cpu)
enqueue-AllParted r d a =
    let p = a.parted d.proc_turn a.turn in
    enqueue_parted r d a p.first p.frees p.ids p.lists (enough (d.proc_info d.proc_turn) p)

pub reclaims-AllParted :
    (k turn : ℕ) (d : Procs)
    → AllParted d
    → turn + k ≤ d.nr_io_cpu
    → (d' : Procs) × (reclaim_completed_reqs nr_max_parallel_io k turn d ≡ ok d')
      × AllParted d'
      × (d'.nr_io_cpu ≡ d.nr_io_cpu)
unfolding reclaim_completed_reqs
reclaims-AllParted zero turn d a h = (d, refl, a, refl)
reclaims-AllParted (suc k) turn d a h =
    let p = a.parted turn (omega (arith, h)) in
    let (pi, ran, lists) =
      reclaim_proc-HasLists nr_max_parallel_io (d.proc_info turn) p.first p.frees p.ids p.lists
        (enough (d.proc_info turn) p) in
    let d1 = record d { proc_info = update d.proc_info turn pi } in
    let (d', rest, all, count) =
      reclaims-AllParted k (suc turn) d1
        (set-AllParted d turn pi a (record {
          first = p.first;
          frees = p.frees ++ gone (d.proc_info turn) p.ids;
          ids = kept (d.proc_info turn) p.ids;
          lists = lists;
        }))
        (omega (arith, h)) in
    (d', rw ran rest, all, count)

-- A worker's round ends, or it faults on a request that it cannot serve.
pub work-AllParted :
    (source : ℕ → ℕ → Option Transfer) (i nr_cq : ℕ) (clock : ℕ → ℕ)
    (cqes : ℕ → Option CompletionQueue) (moved : List Moved) (d : Procs)
    → AllParted d
    → i < d.nr_io_cpu
    → ((work_round source nr_max_parallel_io nr_cq clock
            (record { pi = d.proc_info i; cqes = cqes; moved = moved })
          ≡ fault)
        × ((j : ℕ) × (j < nr_max_parallel_io)
            × (servable source (d.proc_info i).proc_table cqes j ≡ false)))
      ⊎ ((v : List ℕ × Work) × (work_round source nr_max_parallel_io nr_cq clock
              (record { pi = d.proc_info i; cqes = cqes; moved = moved })
            ≡ ok v)
          × AllParted (record d { proc_info = update d.proc_info i (v.1).pi }))
work-AllParted source i nr_cq clock cqes moved d a lt =
    let p = a.parted i lt in
    let w : Work = record { pi = d.proc_info i; cqes = cqes; moved = moved } in
    elim (work_round-ends source nr_max_parallel_io nr_cq clock w p.first p.frees p.ids p.lists
      (enough (d.proc_info i) p)) [
        | inl o ↦
            let (j, there, unable) = o.1 in
            let inside =
              p.lists.inside j
                (ground (arith, contains-append j (p.first ∷ p.frees) p.ids, there)) in
            inl (o.0, (j, inside, unable))
        | inr o ↦
            let (v, ran, serves) = o in
            inr (
              v,
              ran,
              set-AllParted d i (v.1).pi a (record {
                first = p.first;
                frees = p.frees;
                ids = p.ids;
                lists =
                    SameLinks-HasLists (d.proc_info i) (v.1).pi p.first p.frees p.ids serves.links
                      p.lists;
              }),
            )
      ]
