-- ===== src/Dispatch/Service.antt =====
-- A whole round of nvmev_kthread_io: the requests that are due, and then the interrupts.
use femu_on_virt.Base.{
  ℕ, zero, suc, ◌<◌, ◌≡◌, ◌⊎◌, refl, sym, ap, ◌∙◌, true, false, ◌&&◌, Bool-cases, Option-cases, inl,
  inr, List, ◌∷◌, ◌++◌, length, Option, none, some, fault, ok, ◌==◌, ==_iff, update, contains,
  Distinct-parts, minus_one32,
}
use femu_on_virt.Dispatch.Types.{CompletionQueue}
use femu_on_virt.Dispatch.Links.{Linked-Forward}
use femu_on_virt.Dispatch.Lists.{HasLists}
use femu_on_virt.Dispatch.Worker.{Transfer, Moved, Work, signal_queues, work_round}
use femu_on_virt.Dispatch.Served.{flags, handled, served, post, servable, AreMoves}
use femu_on_virt.Dispatch.Steps.{SameLinks}
use femu_on_virt.Dispatch.Rounds.{Outcome}
use femu_on_virt.Dispatch.Serves.{round_outcome}

-- A completion queue less the mark that an interrupt is due.
abbrev pub unmarked : Option CompletionQueue → Option CompletionQueue
unmarked none = none
unmarked (some cq) = some (record cq { interrupt_ready = false })

signals_lem :
    (k n : ℕ) (cqes : ℕ → Option CompletionQueue) (q : ℕ)
    → unmarked ((signal_queues k n cqes).1 q) ≡ unmarked (cqes q)
unfolding signal_queues
signals_lem zero n cqes q = refl
signals_lem (suc k) n cqes q = elim (Option-cases (cqes n)) [
  | inl gone ↦ rw (signal_queues, gone) (signals_lem k (suc n) cqes q)
  | inr there ↦ elim (Bool-cases ((there.0).irq_enabled && (there.0).interrupt_ready)) [
    | inr e ↦ rw (signal_queues, there.1, e) (signals_lem k (suc n) cqes q)
    | inl e ↦
        let after = update cqes n (some (record (there.0) { interrupt_ready = false })) in
        let here : unmarked (after q) ≡ unmarked (cqes q) = elim (Bool-cases (n == q)) [
          | inl same ↦ rw (same, sym ((==_iff _ _).0 same), there.1) refl
          | inr other ↦ rw other refl
        ] in
        rw (signal_queues, there.1, e) (signals_lem k (suc n) after q ∙ here)
  ]
]

-- What a round does for the requests in flight `ids`.
pub record Serves (source : ℕ → ℕ → Option Transfer) (clock : ℕ → ℕ) (ids : List ℕ) (w w' : Work)
    : Type 0 where
  pub rows :
      (j : ℕ)
      → w'.pi.proc_table j
        ≡ flags
            (w.pi.proc_table j)
            (contains j (handled w.pi.proc_table clock 0 ids))
            (contains j (served w.pi.proc_table clock 0 ids))
  pub posted :
      (q : ℕ)
      → unmarked (w'.cqes q)
        ≡ unmarked (post w.pi.proc_table (served w.pi.proc_table clock 0 ids) w.cqes q)
  pub new : List Moved
  pub moved : w'.moved ≡ w.moved ++ new
  pub moves : AreMoves source w.pi.proc_table (handled w.pi.proc_table clock 0 ids) new
  pub links : SameLinks w.pi w'.pi

module _ (source : ℕ → ℕ → Option Transfer) (fuel nr_cq : ℕ) (clock : ℕ → ℕ) (w : Work) (f : ℕ)
    (fs ids : List ℕ) (t : HasLists w.pi f fs ids) (h : length ids < fuel) where
  outcome : Outcome source w.pi.proc_table clock fuel 0 w.pi.io_seq ids w
  outcome =
      round_outcome source w.pi.proc_table clock fuel 0 w.pi.io_seq ids w
        (record {
          rows = λ j c. refl;
          chain = Linked-Forward w.pi minus_one32 w.pi.io_seq ids t.flight;
          distinct = (Distinct-parts (f ∷ fs) ids t.distinct).1;
        })
        h

  -- A round ends, or it faults on a request in flight that cannot be served.
  pub work_round-ends :
      ((work_round source fuel nr_cq clock w ≡ fault)
        × ((i : ℕ) × (contains i ids ≡ true) × (servable source w.pi.proc_table w.cqes i ≡ false)))
      ⊎ ((v : List ℕ × Work) × (work_round source fuel nr_cq clock w ≡ ok v)
          × Serves source clock ids w v.1)
  unfolding work_round
  work_round-ends = elim outcome [
    | inl o ↦ inl (rw o.0 refl, o.1)
    | inr o ↦
        let (w', ms, ran, does, moves) = o in
        let r = signal_queues nr_cq 1 w'.cqes in
        inr (
          (r.0, record w' { cqes = r.1 }),
          rw ran refl,
          record {
            rows = does.rows;
            posted = λ q.
                signals_lem nr_cq 1 w'.cqes q
                ∙ ap (λ (g : ℕ → Option CompletionQueue). unmarked (g q)) does.posted;
            new = ms;
            moved = does.moves;
            moves = moves;
            links = does.links;
          },
        )
  ]

  -- For a table with its two lists, more fuel than there are requests in flight, and requests in
  -- flight whose queues are there and whose transfers need no list that is not mapped: a worker's
  -- round ends. From the head on, up to the first request that is neither completed nor due at its
  -- reading of the clock, the requests that are not completed get their one completion, posted to
  -- their own completion queues in this order; no other completion is posted. These requests, and
  -- that first one, have the copies of __do_perform_io made, in this order, if they were not
  -- copied; there are no other copies. The rows say so, and are otherwise left, as the links are.
  pub work_round-Serves :
      ((i : ℕ) → contains i ids ≡ true → servable source w.pi.proc_table w.cqes i ≡ true)
      → (v : List ℕ × Work) × (work_round source fuel nr_cq clock w ≡ ok v)
        × Serves source clock ids w v.1
  work_round-Serves able = elim work_round-ends [
    | inl o ↦ cc (able (o.1).0 (o.1).1, (o.1).2)
    | inr o ↦ o
  ]
