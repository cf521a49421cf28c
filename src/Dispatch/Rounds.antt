-- ===== src/Dispatch/Rounds.antt =====
-- A worker's round along the requests in flight: what it does, or that it faults on one of them.
use femu_on_virt.Base.{
  ℕ, suc, ◌≡◌, ◌⊎◌, refl, sym, ap, ◌∙◌, Bool, true, false, ◌||◌, Bool-cases, inl, inr, List, [],
  ◌∷◌, ◌++◌, Option, fault, ok, ◌==◌, ==_iff, Option-cases, leb, contains, contains-append,
  minus_one32,
}
use mathlib.Core.List.{append-nil, append_assoc}
use femu_on_virt.Dispatch.Types.{ProcTable, CompletionQueue}
use femu_on_virt.Dispatch.Worker.{
  Transfer, Moved, Work, copy_request, complete_request, work_rounds,
}
use femu_on_virt.Dispatch.Served.{
  flags, present, handled, served, post, post_one, servable, AreMoves,
}
use femu_on_virt.Dispatch.Steps.{trans-SameLinks, at_time, flags_none, Does}

or_both : (a b c : Bool) → ((a || b) || c) ≡ (a || (b || c))
or_both true b c = refl
or_both false b c = refl

-- Two steps one after the other.
pub then_Does :
    (w w1 w2 : Work) (a b c e : List ℕ) (q q2 : ℕ → Option CompletionQueue) (ms ns : List Moved)
    → Does w w1 a b q ms
    → Does w1 w2 c e q2 ns
    → Does w w2 (a ++ c) (b ++ e) q2 (ms ++ ns)
then_Does w w1 w2 a b c e q q2 ms ns x y = record {
  rows = λ j.
      let p = w.pi.proc_table j in
      y.rows j
      ∙ ap (λ r. flags r (contains j c) (contains j e)) (x.rows j)
      ∙ rw
          (
            contains-append j a c,
            contains-append j b e,
            or_both p.is_copied (contains j a) (contains j c),
            or_both p.is_completed (contains j b) (contains j e),
          )
          refl;
  posted = y.posted;
  moves = y.moves ∙ ap (λ m. m ++ ns) x.moves ∙ append_assoc w.moved ms ns;
  links = trans-SameLinks w.pi w1.pi w2.pi x.links y.links;
}

pub AreMoves-append :
    (source : ℕ → ℕ → Option Transfer) (table : ℕ → ProcTable) (is js : List ℕ) (ms ns : List Moved)
    → AreMoves source table is ms
    → AreMoves source table js ns
    → AreMoves source table (is ++ js) (ms ++ ns)
AreMoves-append source table [] js [] ns a b = b
AreMoves-append source table [] js (m ∷ ms) ns a b = absurd a
AreMoves-append source table (i ∷ is) js [] ns a b = absurd a
AreMoves-append source table (i ∷ is) js (m ∷ ms) ns a b =
    (a.0, AreMoves-append source table is js ms ns a.1 b)

pub present-post_one :
    (p : ProcTable) (cqes : ℕ → Option CompletionQueue) (q : ℕ)
    → present (post_one p cqes q) ≡ present (cqes q)
present-post_one p cqes q = elim (Option-cases (cqes p.cqid)) [
  | inl gone ↦ rw (post_one, gone) refl
  | inr there ↦ elim (Bool-cases (p.cqid == q)) [
    | inl e ↦ rw (post_one, there.1, e, sym ((==_iff _ _).0 e), there.1) refl
    | inr e ↦ rw (post_one, there.1, e) refl
  ]
]

-- The table with the reading `t` of the clock.
abbrev pub timed : ℕ → Work → Work
timed t w = record w { pi = record (w.pi) { proc_io_nsecs = t } }

pub timed-Does : (t : ℕ) (w : Work) → Does w (timed t w) [] [] w.cqes []
timed-Does t w = record {
  rows = λ j. sym (flags_none (w.pi.proc_table j));
  posted = refl;
  moves = sym (append-nil w.moved);
  links = at_time t w.pi;
}

module _ (source : ℕ → ℕ → Option Transfer) (table : ℕ → ProcTable) (clock : ℕ → ℕ) where
  -- The outcome of a round along the requests `is`, from the `n`-th reading of the clock on.
  abbrev pub Outcome : ℕ → ℕ → ℕ → List ℕ → Work → Type 0
  Outcome fuel n c is w =
      ((work_rounds source fuel n clock c w ≡ fault)
        × ((i : ℕ) × (contains i is ≡ true) × (servable source table w.cqes i ≡ false)))
      ⊎ ((w' : Work) × (ms : List Moved) × (work_rounds source fuel n clock c w ≡ ok w')
          × Does w w' (handled table clock n is) (served table clock n is)
              (post table (served table clock n is) w.cqes) ms
          × AreMoves source table (handled table clock n is) ms)

  pub servable_same :
      (a b : ℕ → Option CompletionQueue) (i : ℕ)
      → ((q : ℕ) → present (a q) ≡ present (b q))
      → servable source table a i ≡ servable source table b i
  servable_same a b i same = rw (same (table i).cqid) refl

  -- The ways of a round at the request `c`.
  module _ (fuel n c : ℕ) (w : Work) (real : (c == minus_one32) ≡ false) where
    pub passes :
        (w.pi.proc_table c).is_completed ≡ true
        → work_rounds source (suc fuel) n clock c w
          ≡ work_rounds source fuel (suc n) clock (w.pi.proc_table c).next (timed (clock n) w)
    unfolding work_rounds
    passes e = rw (work_rounds, real, e) refl

    pub copy_faults :
        (w.pi.proc_table c).is_completed ≡ false
        → copy_request source c (timed (clock n) w) ≡ fault
        → work_rounds source (suc fuel) n clock c w ≡ fault
    unfolding work_rounds
    copy_faults e x = rw (work_rounds, real, e, x) refl

    pub stops_at :
        (w2 : Work)
        → (w.pi.proc_table c).is_completed ≡ false
        → copy_request source c (timed (clock n) w) ≡ ok w2
        → leb (w.pi.proc_table c).nsecs_target (clock n) ≡ false
        → work_rounds source (suc fuel) n clock c w ≡ ok w2
    unfolding work_rounds
    stops_at w2 e x g = rw (work_rounds, real, e, x, g) refl

    pub complete_faults :
        (w2 : Work)
        → (w.pi.proc_table c).is_completed ≡ false
        → copy_request source c (timed (clock n) w) ≡ ok w2
        → leb (w.pi.proc_table c).nsecs_target (clock n) ≡ true
        → complete_request c w2 ≡ fault
        → work_rounds source (suc fuel) n clock c w ≡ fault
    unfolding work_rounds
    complete_faults w2 e x g y = rw (work_rounds, real, e, x, g, y) refl

    pub goes_on :
        (w2 w3 : Work)
        → (w.pi.proc_table c).is_completed ≡ false
        → copy_request source c (timed (clock n) w) ≡ ok w2
        → leb (w.pi.proc_table c).nsecs_target (clock n) ≡ true
        → complete_request c w2 ≡ ok w3
        → work_rounds source (suc fuel) n clock c w
          ≡ work_rounds source fuel (suc n) clock (w.pi.proc_table c).next w3
    unfolding work_rounds
    goes_on w2 w3 e x g y = rw (work_rounds, real, e, x, g, y) refl
