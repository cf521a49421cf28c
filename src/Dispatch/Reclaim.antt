-- ===== src/Dispatch/Reclaim.antt =====
-- __reclaim_completed_reqs: the completed requests at the head of a table go to the end of its free list.
use femu_on_virt.Base.{
  ℕ, zero, suc, ◌+◌, ◌<◌, ◌≤◌, ◌≡◌, ◌⊎◌, ==-apart, update-at, update-other, refl, sym, ◌∙◌, ap,
  subst, Bool, false, ◌&&◌, Bool-cases, inl, inr, List, [], ◌∷◌, ◌++◌, length, ok, arith, leb, ◌==◌,
  ==_iff, if◌then◌else◌, update, minus_one32, last_of,
}
use mathlib.Core.List.{append-nil}
use femu_on_virt.Dispatch.Types.{ProcInfo}
use femu_on_virt.Dispatch.Table.{
  Procs, last_reclaimed, free_requests, reclaim_proc, reclaim_completed_reqs,
}
use femu_on_virt.Dispatch.Lists.{HasLists}
use femu_on_virt.Dispatch.Freed.{freed-HasLists}
use femu_on_virt.Dispatch.Links.{Forward, Linked-Forward, Linked-last}

-- A request that can be reclaimed.
abbrev pub done : ProcInfo → ℕ → Bool
done pi i =
    (pi.proc_table i).is_completed
    && ((pi.proc_table i).is_copied && leb (pi.proc_table i).nsecs_target pi.proc_io_nsecs)

-- The completed requests at the head, and the others.
abbrev pub gone : ProcInfo → List ℕ → List ℕ
gone pi [] = []
gone pi (i ∷ is) = if done pi i then i ∷ gone pi is else []

abbrev pub kept : ProcInfo → List ℕ → List ℕ
kept pi [] = []
kept pi (i ∷ is) = if done pi i then kept pi is else i ∷ is

gone-kept : (pi : ProcInfo) (ids : List ℕ) → gone pi ids ++ kept pi ids ≡ ids
gone-kept pi [] = refl
gone-kept pi (i ∷ is) = elim (Bool-cases (done pi i)) [
  | inl e ↦ rw e (ap (λ xs. i ∷ xs) (gone-kept pi is))
  | inr e ↦ rw e refl
]

last_reclaimed_lem :
    (fuel : ℕ) (pi : ProcInfo) (c last : ℕ) (ids : List ℕ)
    → Forward pi c ids
    → length ids < fuel
    → last_reclaimed fuel pi c last ≡ ok (last_of last (gone pi ids))
unfolding last_reclaimed
last_reclaimed_lem zero pi c last ids f h = absurd (omega arith)
last_reclaimed_lem (suc fuel) pi c last [] f h = ground arith
last_reclaimed_lem (suc fuel) pi c last (i ∷ is) f h =
    let rest = last_reclaimed_lem fuel pi (pi.proc_table i).next i is f.2 (omega arith) in
    let real : (i == minus_one32) ≡ false = ground (arith, f.1) in
    subst (λ x. last_reclaimed (suc fuel) pi x last ≡ ok (last_of last (gone pi (i ∷ is))))
      (sym f.0)
      (elim (Bool-cases (done pi i)) [ inl e ↦ rw (real, e) rest | inr e ↦ rw (real, e) refl ])

reclaimed-HasLists :
    (fuel : ℕ) (pi : ProcInfo) (f : ℕ) (fs left rest : List ℕ)
    → HasLists pi f fs (left ++ rest)
    → last_reclaimed fuel pi pi.io_seq minus_one32 ≡ ok (last_of minus_one32 left)
    → (pi' : ProcInfo) × (reclaim_proc fuel pi ≡ ok pi') × HasLists pi' f (fs ++ left) rest
unfolding reclaim_proc
reclaimed-HasLists fuel pi f fs [] rest t e =
    (pi, rw e refl, subst (λ l. HasLists pi f l rest) (sym (append-nil fs)) t)
reclaimed-HasLists fuel pi f fs (x ∷ xs) rest t e =
    let small = Linked-last pi minus_one32 pi.io_seq x xs rest t.flight in
    let real : (last_of x xs == minus_one32) ≡ false = ground (arith, small) in
    (free_requests (last_of x xs) pi, rw (e, real) refl, freed-HasLists pi f fs x xs rest t)

pub reclaim_proc-HasLists :
    (fuel : ℕ) (pi : ProcInfo) (f : ℕ) (fs ids : List ℕ)
    → HasLists pi f fs ids
    → length ids < fuel
    → (pi' : ProcInfo) × (reclaim_proc fuel pi ≡ ok pi')
      × HasLists pi' f (fs ++ gone pi ids) (kept pi ids)
reclaim_proc-HasLists fuel pi f fs ids t h =
    reclaimed-HasLists fuel pi f fs (gone pi ids) (kept pi ids)
      (subst (HasLists pi f fs) (sym (gone-kept pi ids)) t)
      (last_reclaimed_lem fuel pi pi.io_seq minus_one32 ids
        (Linked-Forward pi minus_one32 pi.io_seq ids t.flight) h)

-- Each of the `k` workers from `turn` on has a free list of at least one entry and requests in
-- flight.
pub record Tables (f : ℕ → ℕ) (fs ids : ℕ → List ℕ) (procs : ℕ → ProcInfo) (turn k : ℕ)
    : Type 0 where
  pub table : (i : ℕ) → turn ≤ i → i < turn + k → HasLists (procs i) (f i) (fs i) (ids i)

module _ (fuel : ℕ) (f : ℕ → ℕ) (fs ids : ℕ → List ℕ) where
  -- What a round over the workers does to the tables.
  pub record Reclaimed (turn k : ℕ) (d d' : Procs) : Type 0 where
    pub tables :
        Tables f
          (λ i. fs i ++ gone (d.proc_info i) (ids i))
          (λ i. kept (d.proc_info i) (ids i))
          d'.proc_info
          turn
          k
    pub others : (i : ℕ) → (i < turn) ⊎ (turn + k ≤ i) → d'.proc_info i ≡ d.proc_info i
    pub same_turn : d'.proc_turn ≡ d.proc_turn

  -- For workers whose free lists are chains of at least one entry each and whose requests in
  -- flight are doubly linked chains, no entry twice or in both lists of a table, with more fuel
  -- than a worker has requests in flight, __reclaim_completed_reqs ends. In each table, the
  -- longest run of requests from the head on that are completed, copied and due goes to the end of
  -- the free list, in its order, and the others stay in flight; both lists are chains like that
  -- again, with the ends that the table names. The tables of other workers and the turn are left.
  pub reclaim_completed_reqs-Reclaimed :
      (k turn : ℕ) (d : Procs)
      → Tables f fs ids d.proc_info turn k
      → ((i : ℕ) → length (ids i) < fuel)
      → (d' : Procs) × (reclaim_completed_reqs fuel k turn d ≡ ok d') × Reclaimed turn k d d'
  unfolding reclaim_completed_reqs
  reclaim_completed_reqs-Reclaimed zero turn d t h = (
    d,
    refl,
    record {
      tables = record { table = λ i a b. absurd (omega (arith, a, b)) };
      others = λ i o. refl;
      same_turn = refl;
    },
  )
  reclaim_completed_reqs-Reclaimed (suc k) turn d t h =
      let (pi, ran, table) =
        reclaim_proc-HasLists fuel (d.proc_info turn) (f turn) (fs turn) (ids turn)
          (t.table turn (omega arith) (omega arith)) (h turn) in
      let d1 = record d { proc_info = update d.proc_info turn pi } in
      let at = update-at d.proc_info turn pi in
      let other = update-other d.proc_info turn pi in
      let (d', rest, r) =
        reclaim_completed_reqs-Reclaimed k (suc turn) d1
          (record {
            table = λ i a b.
                subst (λ p. HasLists p (f i) (fs i) (ids i)) (sym (other i (omega arith)))
                  (t.table i (omega arith) (omega arith));
          })
          h in
      (
        d',
        rw ran rest,
        record {
          tables = record {
            table = λ i a b. elim (Bool-cases (i == turn)) [
              | inl e ↦
                  let here : i ≡ turn = (==_iff _ _).0 e in
                  let kept_row = r.others turn (inl (omega arith)) ∙ at in
                  subst
                    (λ j.
                      HasLists (d'.proc_info j) (f j) (fs j ++ gone (d.proc_info j) (ids j))
                        (kept (d.proc_info j) (ids j)))
                    (sym here)
                    (subst
                      (λ p.
                        HasLists p (f turn) (fs turn ++ gone (d.proc_info turn) (ids turn))
                          (kept (d.proc_info turn) (ids turn)))
                      (sym kept_row) table)
              | inr e ↦
                  subst
                    (λ p. HasLists (d'.proc_info i) (f i) (fs i ++ gone p (ids i)) (kept p (ids i)))
                    (other i (==-apart _ _ e))
                    (r.tables.table i (ground (arith, a)) (omega (arith, b)))
            ];
          };
          others = λ i o. elim o [
            | inl before ↦ r.others i (inl (omega arith)) ∙ other i (omega arith)
            | inr behind ↦ r.others i (inr (omega arith)) ∙ other i (omega arith)
          ];
          same_turn = r.same_turn;
        },
      )
