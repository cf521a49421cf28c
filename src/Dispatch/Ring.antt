-- ===== src/Dispatch/Ring.antt =====
-- The ring of a completion queue: where the entries go, and the phase by which the host knows them.
use femu_on_virt.Base.{
  ℕ, zero, suc, ◌+◌, ◌-◌, ◌%◌, ◌^◌, ◌≤◌, ◌<◌, ◌≡◌, ◌≢◌, refl, sym, ◌∙◌, ap, subst, some, List, [],
  ◌∷◌, length, get_elem?, get_elem?-lt, arith, ltb, if◌then◌else◌,
}
use femu_on_virt.Dispatch.Types.{Completion, CompletionQueue}
use femu_on_virt.Dispatch.Completions.{completion_status, fill_cq_result}

-- A queue whose head is in the ring, and whose phase is a bit.
pub record IsRing (cq : CompletionQueue) : Type 0 where
  pub size : cq.queue_size < 2 ^ 31
  pub head : cq.cq_head < cq.queue_size
  pub phase : cq.phase < 2

-- The arguments of a call of __fill_cq_result.
pub record Done : Type 0 where
  pub sqid : ℕ
  pub sq_entry : ℕ
  pub command_id : ℕ

abbrev pub fill_all : List Done → CompletionQueue → CompletionQueue
fill_all [] cq = cq
fill_all (d ∷ ds) cq = fill_all ds (fill_cq_result d.sqid d.sq_entry d.command_id cq)

-- The place `k` entries from the head, and the phase of an entry there.
abbrev pub slot : CompletionQueue → ℕ → ℕ
slot cq k =
    if ltb (cq.cq_head + k) cq.queue_size then cq.cq_head + k else cq.cq_head + k - cq.queue_size

abbrev pub phase_at : CompletionQueue → ℕ → ℕ
phase_at cq k = if ltb (cq.cq_head + k) cq.queue_size then cq.phase else 1 - cq.phase

module _ (d : Done) (cq : CompletionQueue) (r : IsRing cq) where
  abbrev after : CompletionQueue
  after = fill_cq_result d.sqid d.sq_entry d.command_id cq

  fill-IsRing : IsRing after
  unfolding fill_cq_result
  fill-IsRing = record {
    size = r.size;
    head = ground (arith, r.size, r.head);
    phase = ground (arith, r.phase);
  }

  after-slot : (k : ℕ) → suc k ≤ cq.queue_size → slot after k ≡ slot cq (suc k)
  unfolding fill_cq_result
  after-slot k h = ground (arith, r.size, r.head)

  after_phase : (k : ℕ) → suc k ≤ cq.queue_size → phase_at after k ≡ phase_at cq (suc k)
  unfolding fill_cq_result
  after_phase k h = ground (arith, r.size, r.head, r.phase)

  after_size : after.queue_size ≡ cq.queue_size
  unfolding fill_cq_result
  after_size = refl

  after_other : (j : ℕ) → j ≢ cq.cq_head → after.cq j ≡ cq.cq j
  unfolding fill_cq_result
  after_other j h = ground arith

  after_entry :
      ((after.cq cq.cq_head).command_id ≡ d.command_id % 2 ^ 16)
      × ((after.cq cq.cq_head).sq_id ≡ d.sqid % 2 ^ 16)
      × ((after.cq cq.cq_head).status ≡ cq.phase)
  unfolding fill_cq_result completion_status
  after_entry = ground (arith, r.phase)

-- The entry of one completion.
pub record IsEntry (d : Done) (phase : ℕ) (c : Completion) : Type 0 where
  pub command_id : c.command_id ≡ d.command_id % 2 ^ 16
  pub sq_id : c.sq_id ≡ d.sqid % 2 ^ 16
  pub status : c.status ≡ phase

slot-zero :
    (cq : CompletionQueue) → IsRing cq → (slot cq 0 ≡ cq.cq_head) × (phase_at cq 0 ≡ cq.phase)
slot-zero cq r = ground (arith, r.head)

fills-kept :
    (ds : List Done) (cq : CompletionQueue)
    → IsRing cq
    → length ds ≤ cq.queue_size
    → (j : ℕ) → ((k : ℕ) → k < length ds → slot cq k ≢ j)
    → (fill_all ds cq).cq j ≡ cq.cq j
fills-kept [] cq r h j ne = refl
fills-kept (d ∷ ds) cq r h j ne =
    let t = fill_cq_result d.sqid d.sq_entry d.command_id cq in
    let far : (k : ℕ) → k < length ds → slot t k ≢ j =
      λ k i e. ne (suc k) (omega arith) (sym (after-slot d cq r k (omega arith)) ∙ e) in
    let first : j ≢ cq.cq_head = λ e. ne 0 (omega arith) ((slot-zero cq r).0 ∙ sym e) in
    fills-kept ds t (fill-IsRing d cq r) (rw (after_size d cq r) (omega arith)) j far
    ∙ after_other d cq r j first

slot-apart :
    (cq : CompletionQueue)
    → IsRing cq
    → (k : ℕ) → suc k < cq.queue_size
    → slot cq (suc k) ≢ cq.cq_head
slot-apart cq r k h = ground (arith, r.head)

-- What a batch of completions leaves.
pub record IsFilled (ds : List Done) (cq cq' : CompletionQueue) : Type 0 where
  pub ring : IsRing cq'
  pub size : cq'.queue_size ≡ cq.queue_size
  pub head : cq'.cq_head ≡ slot cq (length ds)
  pub phase : cq'.phase ≡ phase_at cq (length ds)
  pub entry :
      (k : ℕ) (d : Done) → get_elem? ds k ≡ some d → IsEntry d (phase_at cq k) (cq'.cq (slot cq k))

first-IsEntry :
    (d : Done) (ds : List Done) (cq : CompletionQueue)
    → IsRing cq
    → suc (length ds) ≤ cq.queue_size
    → IsEntry d (phase_at cq 0) ((fill_all (d ∷ ds) cq).cq (slot cq 0))
first-IsEntry d ds cq r h =
    let t = fill_cq_result d.sqid d.sq_entry d.command_id cq in
    let at = slot-zero cq r in
    let far : (k : ℕ) → k < length ds → slot t k ≢ cq.cq_head =
      λ k i e. slot-apart cq r k (omega arith) (sym (after-slot d cq r k (omega arith)) ∙ e) in
    let kept =
      fills-kept ds t (fill-IsRing d cq r) (rw (after_size d cq r) (omega arith)) cq.cq_head far in
    let written = after_entry d cq r in
    subst (λ j. IsEntry d (phase_at cq 0) ((fill_all ds t).cq j)) (sym at.0)
      (record {
        command_id = ap (λ (c : Completion). c.command_id) kept ∙ written.0;
        sq_id = ap (λ (c : Completion). c.sq_id) kept ∙ written.1;
        status = ap (λ (c : Completion). c.status) kept ∙ written.2 ∙ sym at.1;
      })

filled-IsEntry :
    (d : Done) (ds : List Done) (cq : CompletionQueue)
    → IsRing cq
    → suc (length ds) ≤ cq.queue_size
    → IsFilled ds (fill_cq_result d.sqid d.sq_entry d.command_id cq) (fill_all (d ∷ ds) cq)
    → (k : ℕ) (d' : Done) → get_elem? (d ∷ ds) k ≡ some d'
    → IsEntry d' (phase_at cq k) ((fill_all (d ∷ ds) cq).cq (slot cq k))
filled-IsEntry d ds cq r h rest zero d' e =
    subst (λ x. IsEntry x (phase_at cq 0) ((fill_all (d ∷ ds) cq).cq (slot cq 0))) (cc e)
      (first-IsEntry d ds cq r h)
filled-IsEntry d ds cq r h rest (suc k) d' e =
    let k_lt = get_elem?-lt ds k d' e in
    let there = rest.entry k d' e in
    subst (λ j. IsEntry d' (phase_at cq (suc k)) ((fill_all (d ∷ ds) cq).cq j))
      (after-slot d cq r k (omega arith))
      (subst
        (λ b.
          IsEntry d' b
            ((fill_all (d ∷ ds) cq).cq (slot (fill_cq_result d.sqid d.sq_entry d.command_id cq) k)))
        (after_phase d cq r k (omega arith)) there)

-- For a completion queue whose head is in the ring and whose phase is a bit, and a batch of at
-- most as many completions as the ring has entries, __fill_cq_result writes the i-th completion
-- into the i-th entry from the head, around the end of the ring, with the phase inverted for the
-- entries behind the end. The head and the phase end where the batch ends, and the ring is well-
-- formed again.
pub fill_all-IsFilled :
    (ds : List Done) (cq : CompletionQueue)
    → IsRing cq
    → length ds ≤ cq.queue_size
    → IsFilled ds cq (fill_all ds cq)
fill_all-IsFilled [] cq r h = record {
  ring = r;
  size = refl;
  head = sym (slot-zero cq r).0;
  phase = sym (slot-zero cq r).1;
  entry = λ k d e. cc e;
}
fill_all-IsFilled (d ∷ ds) cq r h =
    let t = fill_cq_result d.sqid d.sq_entry d.command_id cq in
    let rest = fill_all-IsFilled ds t (fill-IsRing d cq r) (rw (after_size d cq r) (omega arith)) in
    record {
      ring = rest.ring;
      size = rest.size ∙ after_size d cq r;
      head = rest.head ∙ after-slot d cq r (length ds) h;
      phase = rest.phase ∙ after_phase d cq r (length ds) h;
      entry = filled-IsEntry d ds cq r h rest;
    }
