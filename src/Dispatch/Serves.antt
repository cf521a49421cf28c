-- ===== src/Dispatch/Serves.antt =====
-- A worker's round serves the requests in flight that are due, or faults on one that it cannot serve.
use femu_on_virt.Base.{
  ℕ, zero, suc, ◌<◌, ◌≡◌, refl, subst, sym, ap, ◌∙◌, true, false, Bool-cases, inl, inr, List, [],
  ◌∷◌, ◌++◌, length, Option, ok, arith, ◌==◌, leb, contains, Distinct, minus_one32,
}
use mathlib.Core.List.{append-nil}
use femu_on_virt.Dispatch.Types.{ProcTable, CompletionQueue}
use femu_on_virt.Dispatch.Links.{Forward, Forward-same}
use femu_on_virt.Dispatch.Worker.{
  Transfer, Moved, Work, copy_request, complete_request, work_rounds,
}
use femu_on_virt.Dispatch.Served.{
  flags, present, movable, fresh, handled, served, post, post_one, servable, AreMoves,
}
use femu_on_virt.Dispatch.Steps.{flags_none, no_step, Does, copies, completes}
use femu_on_virt.Dispatch.Rounds.{
  Outcome, then_Does, AreMoves-append, present-post_one, servable_same, timed, timed-Does, passes,
  copy_faults, stops_at, complete_faults, goes_on,
}

-- A row that a step does not name.
other_row :
    (w w' : Work) (a b : List ℕ) (q : ℕ → Option CompletionQueue) (ms : List Moved) (j : ℕ)
    → Does w w' a b q ms
    → contains j a ≡ false
    → contains j b ≡ false
    → w'.pi.proc_table j ≡ w.pi.proc_table j
other_row w w' a b q ms j d x y = d.rows j ∙ rw (x, y) (flags_none (w.pi.proc_table j))

fresh-apart :
    (table : ℕ → ProcTable) (i j : ℕ) → (i == j) ≡ false → contains j (fresh table i) ≡ false
fresh-apart table i j ne = elim (Bool-cases (table i).is_copied) [
  | inl e ↦ rw e refl
  | inr e ↦ rw (e, ne) refl
]

module _ (source : ℕ → ℕ → Option Transfer) (table : ℕ → ProcTable) (clock : ℕ → ℕ) where
  -- Work whose rows of the requests `is` are those of `table`, with their chain from `c` on.
  pub record IsAhead (c : ℕ) (is : List ℕ) (w : Work) : Type 0 where
    pub rows : (j : ℕ) → contains j is ≡ true → w.pi.proc_table j ≡ table j
    pub chain : Forward w.pi c is
    pub distinct : Distinct is

  -- Behind a step for `i`, which names no other request.
  behind :
      (i : ℕ) (is : List ℕ) (w w' : Work) (a b : List ℕ) (q : ℕ → Option CompletionQueue)
      (ms : List Moved)
      → IsAhead i (i ∷ is) w
      → Does w w' a b q ms
      → ((j : ℕ) → (i == j) ≡ false → contains j a ≡ false)
      → ((j : ℕ) → (i == j) ≡ false → contains j b ≡ false)
      → IsAhead (w.pi.proc_table i).next is w'
  behind i is w w' a b q ms k d x y = record {
    rows = λ j there.
        let ne : (i == j) ≡ false = ground (arith, there, k.distinct.0) in
        other_row w w' a b q ms j d (x j ne) (y j ne) ∙ k.rows j (ground (arith, there));
    chain =
        Forward-same w.pi w'.pi (w.pi.proc_table i).next is (λ j there. d.links.next j) k.chain.2;
    distinct = k.distinct.1;
  }

  -- A completed request is passed.
  pass_on :
      (fuel n i : ℕ) (is : List ℕ) (w : Work)
      → (i == minus_one32) ≡ false
      → w.pi.proc_table i ≡ table i
      → (table i).is_completed ≡ true
      → Outcome source table clock fuel (suc n) (w.pi.proc_table i).next is (timed (clock n) w)
      → Outcome source table clock (suc fuel) n i (i ∷ is) w
  pass_on fuel n i is w real row e rest =
      let ran =
        passes source table clock fuel n i w real
          (ap (λ (p : ProcTable). p.is_completed) row ∙ e) in
      elim rest [
        | inl f ↦ inl (ran ∙ f.0, (f.1.0, ground (arith, f.1.1), f.1.2))
        | inr o ↦
            let (w', ms, end, does, moves) = o in
            let t = timed (clock n) w in
            let all =
              then_Does w t w' [] [] (handled table clock (suc n) is)
                (served table clock (suc n) is) w.cqes _ [] ms (timed-Does (clock n) w) does in
            inr (w', ms, ran ∙ end, rw e all, rw e moves)
      ]

  -- A request that is copied, completed and left behind.
  serve_on :
      (fuel n i : ℕ) (is : List ℕ) (w w2 w3 : Work) (ms : List Moved)
      → (i == minus_one32) ≡ false
      → w.pi.proc_table i ≡ table i
      → (table i).is_completed ≡ false
      → leb (table i).nsecs_target (clock n) ≡ true
      → copy_request source i (timed (clock n) w) ≡ ok w2
      → complete_request i w2 ≡ ok w3
      → Does w w2 (fresh table i) [] w.cqes ms
      → AreMoves source table (fresh table i) ms
      → Does w2 w3 [] (i ∷ []) (post_one (table i) w2.cqes) []
      → Outcome source table clock fuel (suc n) (w.pi.proc_table i).next is w3
      → Outcome source table clock (suc fuel) n i (i ∷ is) w
  serve_on fuel n i is w w2 w3 ms real row e g cr dr copied moved done rest =
      let ran =
        goes_on source table clock fuel n i w real w2 w3
          (ap (λ (p : ProcTable). p.is_completed) row ∙ e) cr
          (ap (λ (p : ProcTable). leb p.nsecs_target (clock n)) row ∙ g) dr in
      let posted : w3.cqes ≡ post_one (table i) w.cqes =
        done.posted ∙ ap (post_one (table i)) copied.posted in
      elim rest [
        | inl f ↦
            let same : (q : ℕ) → present (w3.cqes q) ≡ present (w.cqes q) = λ q.
              ap (λ (h : ℕ → Option CompletionQueue). present (h q)) posted
              ∙ present-post_one (table i) w.cqes q in
            inl (
              ran ∙ f.0,
              (
                f.1.0,
                ground (arith, f.1.1),
                sym (servable_same source table clock w3.cqes w.cqes f.1.0 same) ∙ f.1.2,
              ),
            )
        | inr o ↦
            let (w', ns, end, does, moves) = o in
            let H = handled table clock (suc n) is in
            let S = served table clock (suc n) is in
            let tail =
              then_Does w2 w3 w' [] (i ∷ []) H S (post_one (table i) w2.cqes) _ [] ns done does in
            let all = then_Does w w2 w' (fresh table i) [] H (i ∷ S) w.cqes _ ms ns copied tail in
            let ending = ap (post table S) posted in
            inr (
              w',
              ms ++ ns,
              ran ∙ end,
              rw (e, g)
                  (subst (λ q. Does w w' (fresh table i ++ H) (i ∷ S) q (ms ++ ns)) ending all),
              rw (e, g) (AreMoves-append source table (fresh table i) H ms ns moved moves),
            )
      ]

  unservable :
      (i : ℕ) (a b : ℕ → Option CompletionQueue)
      → a ≡ b
      → present (a (table i).cqid) ≡ false
      → servable source table b i ≡ false
  unservable i a b e x =
      let y = subst (λ (q : ℕ → Option CompletionQueue). present (q (table i).cqid) ≡ false) e x in
      elim (Bool-cases (movable (source (table i).sqid (table i).sq_entry))) [
        | inl m ↦ rw (m, y) refl
        | inr m ↦ rw m refl
      ]

  -- The first request that is not completed: it is copied, and then completed if it is due.
  serve_one :
      (fuel n i : ℕ) (is : List ℕ) (w : Work)
      → (i == minus_one32) ≡ false
      → IsAhead i (i ∷ is) w
      → (table i).is_completed ≡ false
      → ((w3 : Work)
          → IsAhead (w.pi.proc_table i).next is w3
          → Outcome source table clock fuel (suc n) (w.pi.proc_table i).next is w3)
      → Outcome source table clock (suc fuel) n i (i ∷ is) w
  serve_one fuel n i is w real k e rest =
      let row = k.rows i (ground arith) in
      let open_row = ap (λ (p : ProcTable). p.is_completed) row ∙ e in
      let w1 = timed (clock n) w in
      let here : contains i (i ∷ is) ≡ true = ground arith in
      elim (copies source table i w1 row) [
        | inl f ↦
            inl
              (copy_faults source table clock fuel n i w real open_row f.0, (i, here, rw f.1 refl))
        | inr o ↦
            let (w2, ms, cr, copied, moved) = o in
            let step =
              then_Does w w1 w2 [] [] (fresh table i) [] w.cqes _ [] ms (timed-Does (clock n) w)
                copied in
            let row2 : w2.pi.proc_table i ≡ flags (table i) (contains i (fresh table i)) false =
              copied.rows i ∙ ap (λ p. flags p (contains i (fresh table i)) false) row in
            elim (Bool-cases (leb (table i).nsecs_target (clock n))) [
              | inr g ↦ inr (
                w2,
                ms,
                stops_at source table clock fuel n i w real w2 open_row cr
                    (ap (λ (p : ProcTable). leb p.nsecs_target (clock n)) row ∙ g),
                rw (e, g) step,
                rw (e, g) moved,
              )
              | inl g ↦
                  let due = ap (λ (p : ProcTable). leb p.nsecs_target (clock n)) row ∙ g in
                  elim (completes source w2.pi.proc_table i w2 refl) [
                    | inl f ↦
                        let absent : present (w2.cqes (table i).cqid) ≡ false =
                          subst (λ (p : ProcTable). present (w2.cqes p.cqid) ≡ false) row2 f.1 in
                        inl (
                          complete_faults source table clock fuel n i w real w2 open_row cr due f.0,
                          (i, here, unservable i w2.cqes w.cqes copied.posted absent),
                        )
                    | inr x ↦
                        let (w3, dr, done) = x in
                        let done2 : Does w2 w3 [] (i ∷ []) (post_one (table i) w2.cqes) [] =
                          subst (λ p. Does w2 w3 [] (i ∷ []) (post_one p w2.cqes) []) row2 done in
                        let both =
                          then_Does w w2 w3 (fresh table i) [] [] (i ∷ []) w.cqes _ ms [] step
                            done2 in
                        serve_on fuel n i is w w2 w3 ms real row e g cr dr step moved done2 (
                          rest w3 (
                            behind i is w w3 (fresh table i ++ []) (i ∷ []) _ _ k both
                              (λ j ne.
                                subst (λ l. contains j l ≡ false) (sym (append-nil (fresh table i)))
                                  (fresh-apart table i j ne))
                              (λ j ne. ground (arith, ne))))
                  ]
            ]
      ]

  pub round_outcome :
      (fuel n c : ℕ) (is : List ℕ) (w : Work)
      → IsAhead c is w
      → length is < fuel
      → Outcome source table clock fuel n c is w
  unfolding work_rounds
  round_outcome zero n c is w k h = absurd (omega (arith, h))
  round_outcome (suc fuel) n c [] w k h = inr (w, [], rw (work_rounds, k.chain) refl, no_step w, tt)
  round_outcome (suc fuel) n c (i ∷ is) w k h =
      let here = k.chain.0 in
      let real : (i == minus_one32) ≡ false = ground (arith, k.chain.1) in
      let k2 = subst (λ v. IsAhead v (i ∷ is) w) here k in
      let rest = λ (w3 : Work) (k3 : IsAhead (w.pi.proc_table i).next is w3).
        round_outcome fuel (suc n) (w.pi.proc_table i).next is w3 k3 (omega (arith, h)) in
      let row = k2.rows i (ground arith) in
      subst (λ v. Outcome source table clock (suc fuel) n v (i ∷ is) w) (sym here)
        (elim (Bool-cases (table i).is_completed) [
          | inl e ↦ pass_on fuel n i is w real row e (
              rest (timed (clock n) w) (
                behind i is w (timed (clock n) w) [] [] _ _ k2 (timed-Does (clock n) w)
                  (λ j ne. refl) (λ j ne. refl)))
          | inr e ↦ serve_one fuel n i is w real k2 e rest
        ])
