-- ===== src/Admin/Features.antt =====
-- __nvmev_admin_set_features: the numbers of queues that the host gets, and how it reads them.
use femu_on_virt.Base.{
  ℕ, zero, suc, ◌+◌, ◌-◌, ◌*◌, ◌/◌, ◌%◌, ◌^◌, ◌≤◌, ◌<◌, ◌≡◌, refl, sym, ◌∙◌, ap, some, Bool, true,
  ◌&&◌, ok, ◌==◌, ==_iff, update, w32, arith,
}
use Prim.Native.Nat.{bit_or, min}
use femu_on_virt.Dispatch.Types.{Completion}
use femu_on_virt.Admin.Types.{
  AdminCommand, AdminQueue, Queues, low, high, admin_status, nr_max_io_queue, respond, set_result,
}
use femu_on_virt.Admin.Identify.{granted, set_features}
use femu_on_virt.Admin.Answers.{with_ring, with_ring-eq}

-- Whether a test holds of all numbers below a bound.
each_below : ℕ → (ℕ → Bool) → Bool
each_below zero p = true
each_below (suc n) p = p n && each_below n p

each_below_at : (n : ℕ) (p : ℕ → Bool) (x : ℕ) → each_below n p ≡ true → x < n → p x ≡ true
unfolding each_below
each_below_at zero p x h lt = absurd (omega arith)
each_below_at (suc n) p x h lt = ground (arith, each_below_at n p x)

packed_table :
    each_below 72 (λ a. each_below 72 (λ b. bit_or (w32 (a * 2 ^ 16)) b == a * 2 ^ 16 + b)) ≡ true
unfolding each_below
packed_table = refl

-- The two counts stand in different halves of the result.
packed : (a b : ℕ) → a < 72 → b < 72 → bit_or (w32 (a * 2 ^ 16)) b ≡ a * 2 ^ 16 + b
packed a b h k = (==_iff _ _).0 (each_below_at 72 _ b (each_below_at 72 _ a packed_table h) k)

granted_bounds : (n : ℕ) → (1 ≤ granted n) × (granted n ≤ 72) × (granted n ≡ min (n + 1) 72)
unfolding granted nr_max_io_queue
granted_bounds n = ground arith

-- The host's decoding of the result of the command.
abbrev pub queues_of : ℕ → ℕ × ℕ
queues_of result = (result % 2 ^ 16 + 1, result / 2 ^ 16 + 1)

pub record Granted (cmd : AdminCommand) (q q' : AdminQueue) (d d' : Queues) : Type 0 where
  pub nr_sq : d'.nr_sq ≡ min (low cmd.dword11 + 1) 72
  pub nr_cq : d'.nr_cq ≡ min (high cmd.dword11 + 1) 72
  pub entries : ℕ → Completion
  pub nvme_cq : q'.nvme_cq ≡ some entries
  pub result : queues_of (entries q.cq_head).result ≡ (d'.nr_sq, d'.nr_cq)
  pub sqes : d'.sqes ≡ d.sqes
  pub cqes : d'.cqes ≡ d.cqes

module _ (eid : ℕ) (cmd : AdminCommand) (q : AdminQueue) (d : Queues) (cq : ℕ → Completion) where
  abbrev sqs : ℕ
  sqs = granted (low cmd.dword11)

  abbrev cqs : ℕ
  cqs = granted (high cmd.dword11)

  abbrev value : ℕ
  value = bit_or (w32 ((cqs - 1) * 2 ^ 16)) (sqs - 1)

  -- The result is written first, and the answer over it.
  abbrev stored : ℕ → Completion
  stored = update cq q.cq_head (record (cq q.cq_head) { result = value })

  abbrev answered : ℕ → Completion
  answered = update stored q.cq_head (record (stored q.cq_head) {
    command_id = cmd.command_id;
    sq_id = 0;
    sq_head = eid % 2 ^ 16;
    status = admin_status q.phase 0;
  })

  abbrev granting : AdminQueue × Queues
  granting = (record q { nvme_cq = some answered }, record d { nr_sq = sqs; nr_cq = cqs })

  result-eq : queues_of (answered q.cq_head).result ≡ (sqs, cqs)
  result-eq =
      let s = granted_bounds (low cmd.dword11) in
      let c = granted_bounds (high cmd.dword11) in
      let p = packed (cqs - 1) (sqs - 1) (omega (arith, c)) (omega (arith, s)) in
      let at : (answered q.cq_head).result ≡ value = ground arith in
      let lower : value % 2 ^ 16 + 1 ≡ sqs = omega (arith, p, s) in
      let upper : value / 2 ^ 16 + 1 ≡ cqs = omega (arith, p, s, c) in
      ap queues_of at ∙ (λ i. (lower i, upper i))

  granting-Granted : Granted cmd q granting.0 d granting.1
  granting-Granted = record {
    nr_sq = (granted_bounds (low cmd.dword11)).2;
    nr_cq = (granted_bounds (high cmd.dword11)).2;
    entries = answered;
    nvme_cq = refl;
    result = result-eq;
    sqes = refl;
    cqes = refl;
  }

  features-eq : cmd.dword10 ≡ 7 → set_features eid cmd (with_ring q cq, d) ≡ ok granting
  unfolding set_features set_result respond
  features-eq e = rw e refl

-- For the feature of the number of queues and a completion ring that is there, set_features
-- succeeds: the driver has as many submission and completion queues as the 0-based halves of
-- double word 11 ask for, but not more than 72, no queue changes, and a host that decodes the
-- result of the completion gets these two numbers.
pub set_features-Granted :
    (eid : ℕ) (cmd : AdminCommand) (q : AdminQueue) (d : Queues) (cq : ℕ → Completion)
    → q.nvme_cq ≡ some cq
    → cmd.dword10 ≡ 7
    → (s' : AdminQueue × Queues) × (set_features eid cmd (q, d) ≡ ok s') × Granted cmd q s'.0 d s'.1
set_features-Granted eid cmd q d cq ecq e = (
  granting eid cmd q d cq,
  ap (λ x. set_features eid cmd (x, d)) (sym (with_ring-eq q cq ecq))
      ∙ features-eq eid cmd q d cq e,
  granting-Granted eid cmd q d cq,
)
