-- ===== src/Admin/Kept.antt =====
-- Every request that succeeds, answered or not, keeps the completion ring well-formed.
use femu_on_virt.Base.{
  ℕ, ◌≡◌, sym, ◌∙◌, ap, subst, some, none, Option, Bool-cases, inl, inr, ok, fault, ok-injective,
  ◌>>=◌, >>=-eq-ok,
}
use femu_on_virt.Dispatch.Types.{Completion}
use femu_on_virt.Admin.Types.{AdminCommand, AdminQueue, Memory, Queues, advance_head}
use femu_on_virt.Admin.Requests.{admin_command, proc_admin_req}
use femu_on_virt.Admin.Answers.{answers, with_ring-eq, command-Written}
use femu_on_virt.Admin.Delivery.{IsAdminRing, advance-Answers, Answers-IsAdminRing, behind}
use femu_on_virt.Admin.Silent.{silent_command, advance-IsAdminRing}

module _ (mem : Memory) (eid : ℕ) (q : AdminQueue) (d : Queues) (cq : ℕ → Completion)
    (r : IsAdminRing q) (ring : q.nvme_cq ≡ some cq) where
  command-IsAdminRing :
      (sq : ℕ → AdminCommand) (s : AdminQueue × Queues)
      → admin_command mem eid (sq eid) (q, d) ≡ ok s
      → IsAdminRing (advance_head s.0)
  command-IsAdminRing sq s h = elim (Bool-cases (answers (sq eid).opcode)) [
    | inl known ↦
        let w =
          command-Written mem eid (sq eid) cq q d s known
            (ap (λ x. admin_command mem eid (sq eid) (x, d)) (with_ring-eq q cq ring) ∙ h) in
        let a = advance-Answers eid (sq eid) q s.0 cq r w in
        Answers-IsAdminRing (sq eid) q (advance_head s.0) cq r a
    | inr silent ↦
        let same = ok-injective (sym (silent_command mem sq eid (q, d) silent) ∙ h) in
        subst (λ (x : AdminQueue × Queues). IsAdminRing (advance_head x.0)) same
          (advance-IsAdminRing mem sq q r)
  ]

  ring-IsAdminRing :
      (o : Option (ℕ → AdminCommand)) (s' : AdminQueue × Queues)
      → elim o [ none ↦ fault | some sq ↦ admin_command mem eid (sq eid) (q, d) >>= behind ] ≡ ok s'
      → IsAdminRing s'.0
  ring-IsAdminRing none s' h = cc
  ring-IsAdminRing (some sq) s' h =
      let parts = >>=-eq-ok (admin_command mem eid (sq eid) (q, d)) behind h in
      subst (λ (x : AdminQueue × Queues). IsAdminRing x.0) (ok-injective parts.2)
        (command-IsAdminRing sq parts.0 parts.1)

  pub request-IsAdminRing :
      (s' : AdminQueue × Queues) → proc_admin_req mem eid (q, d) ≡ ok s' → IsAdminRing s'.0
  unfolding proc_admin_req
  request-IsAdminRing s' h = ring-IsAdminRing q.nvme_sq s' h
