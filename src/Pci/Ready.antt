-- ===== src/Pci/Ready.antt =====
-- The controller as a state machine: the host writes registers, the dispatcher polls them and takes
-- admin requests.
use femu_on_virt.Base.{
  ℕ, ◌<◌, ◌≡◌, inl, inr, refl, sym, ◌∙◌, ap, subst, some, none, Option, Option-cases, ok, fault,
  ok-injective, >>=-eq-ok, ◌==◌, ==_iff, if-cases, arith,
}
use mathlib.Core.Option.{some-injective}
use native.Mathlib.Decide.{dec_lt}
use femu_on_virt.Dispatch.Types.{Completion}
use femu_on_virt.Admin.Types.{AdminCommand, AdminQueue, Memory}
use femu_on_virt.Admin.Delivery.{IsAdminRing}
use femu_on_virt.Pci.Bars.{
  Bar, Controller, cc_en, csts_rdy, aqa_acqs, new_admin_queue, copy_registers, update_aqa,
  update_asq, update_acq, update_cc, finish_cc, set_rdy, set_shst, proc_bars,
}

-- CSTS.RDY is the enable bit that the driver last acted on, which is set only over an admin queue,
-- and the admin queue's completion ring is well-formed.
pub record IsSound (c : Controller) : Type 0 where
  pub rdy : csts_rdy c.bar.csts ≡ cc_en c.old_bar.cc
  pub present : cc_en c.old_bar.cc ≡ 1 → (q : AdminQueue) × (c.admin_q ≡ some q)
  pub ring : (q : AdminQueue) → c.admin_q ≡ some q → IsAdminRing q

-- CSTS.RDY as the host may expect it: the enable bit, over an admin queue.
abbrev pub expected_rdy : Option AdminQueue → ℕ → ℕ
expected_rdy none reg = 0
expected_rdy (some q) reg = cc_en reg

-- A bit that is set only over an admin queue, and that is the enable bit over one.
as_expected :
    (o : Option AdminQueue) (rdy reg : ℕ)
    → rdy < 2
    → (rdy ≡ 1 → (q : AdminQueue) × (o ≡ some q))
    → ((q : AdminQueue) → o ≡ some q → rdy ≡ cc_en reg)
    → rdy ≡ expected_rdy o reg
as_expected none rdy reg lt present e = elim (dec_lt rdy 1) [
  | yes i ↦ omega arith
  | no n ↦ cc (present (omega arith)).1
]
as_expected (some q) rdy reg lt present e = e q refl

new-IsAdminRing : (aqa : ℕ) → IsAdminRing (new_admin_queue aqa)
unfolding new_admin_queue aqa_acqs
new-IsAdminRing aqa = record { small = omega arith; head = omega arith; phase = omega arith }

set_queue-IsSound :
    (c : Controller) (old : Bar) (q : AdminQueue)
    → IsSound c
    → old.cc ≡ c.old_bar.cc
    → IsAdminRing q
    → IsSound (record c { old_bar = old; admin_q = some q })
set_queue-IsSound c old q s e r = record {
  rdy = s.rdy ∙ sym (ap cc_en e);
  present = λ h. (q, refl);
  ring = λ q' h. subst IsAdminRing (some-injective _ _ h) r;
}

-- A change of the admin queue, which is a fault when there is none.
when_queue :
    (o : Option AdminQueue) (f : AdminQueue → Controller) (c' : Controller)
    → ((q : AdminQueue) → o ≡ some q → IsSound (f q))
    → elim o [ none ↦ fault | some q ↦ ok (f q) ] ≡ ok c'
    → IsSound c'
when_queue none f c' s h = cc
when_queue (some q) f c' s h = subst IsSound (ok-injective h) (s q refl)

-- The rings' addresses do not matter.
rings-IsAdminRing :
    (q : AdminQueue) (nvme_sq : Option (ℕ → AdminCommand)) (nvme_cq : Option (ℕ → Completion))
    → IsAdminRing q
    → IsAdminRing (record q { nvme_sq = nvme_sq; nvme_cq = nvme_cq })
rings-IsAdminRing q nvme_sq nvme_cq r = record { small = r.small; head = r.head; phase = r.phase }

update_aqa-IsSound : (c : Controller) → IsSound c → IsSound (update_aqa c)
unfolding update_aqa
update_aqa-IsSound c s =
    if-cases IsSound (c.old_bar.aqa == c.bar.aqa) (λ e. s)
      (λ n. set_queue-IsSound c _ _ s refl (new-IsAdminRing c.bar.aqa))

update_asq-IsSound :
    (mem : Memory) (c c' : Controller) → IsSound c → update_asq mem c ≡ ok c' → IsSound c'
unfolding update_asq
update_asq-IsSound mem c c' s =
    if-cases (λ m. m ≡ ok c' → IsSound c') (c.old_bar.asq == c.bar.asq)
      (λ e h. subst IsSound (ok-injective h) s)
      (λ n h.
        when_queue c.admin_q _ c'
          (λ q e. set_queue-IsSound c _ _ s refl (rings-IsAdminRing q _ _ (s.ring q e))) h)

update_acq-IsSound :
    (mem : Memory) (c c' : Controller) → IsSound c → update_acq mem c ≡ ok c' → IsSound c'
unfolding update_acq
update_acq-IsSound mem c c' s =
    if-cases (λ m. m ≡ ok c' → IsSound c') (c.old_bar.acq == c.bar.acq)
      (λ e h. subst IsSound (ok-injective h) s)
      (λ n h.
        when_queue c.admin_q _ c'
          (λ q e. set_queue-IsSound c _ _ s refl (rings-IsAdminRing q _ _ (s.ring q e))) h)

-- What a poll of `cc` gives: the bits agree, and the host finds what it may expect.
finish_rdy :
    (rdy : ℕ) (c : Controller)
    → rdy < 2
    → (csts_rdy (finish_cc rdy c).bar.csts ≡ rdy)
      × ((finish_cc rdy c).old_bar.cc ≡ c.bar.cc)
      × ((finish_cc rdy c).bar.cc ≡ c.bar.cc)
      × ((finish_cc rdy c).admin_q ≡ c.admin_q)
unfolding finish_cc set_rdy set_shst csts_rdy
finish_rdy rdy c lt = (ground arith, refl, refl, refl)

abbrev IsReady : Controller → Type 0
IsReady c = IsSound c × (csts_rdy c.bar.csts ≡ expected_rdy c.admin_q c.bar.cc)

finish-IsReady :
    (rdy : ℕ) (c : Controller)
    → IsSound c
    → rdy ≡ cc_en c.bar.cc
    → rdy < 2
    → (rdy ≡ 1 → (q : AdminQueue) × (c.admin_q ≡ some q))
    → IsReady (finish_cc rdy c)
finish-IsReady rdy c s e lt present =
    let f = finish_rdy rdy c lt in
    (
      record {
        rdy = f.0 ∙ e ∙ sym (ap cc_en f.1);
        present = λ h. let p = present (e ∙ sym (ap cc_en f.1) ∙ h) in (p.0, f.3 ∙ p.1);
        ring = λ q h. s.ring q (sym f.3 ∙ h);
      },
      f.0
          ∙ as_expected c.admin_q rdy c.bar.cc lt present (λ q h. e)
          ∙ sym (ap (λ o. expected_rdy o c.bar.cc) f.3)
          ∙ sym (ap (expected_rdy (finish_cc rdy c).admin_q) f.2),
    )

-- Nothing to do: the driver has acted on `cc`, or there is no admin queue.
still-IsReady :
    (c : Controller)
    → IsSound c
    → ((q : AdminQueue) → c.admin_q ≡ some q → c.old_bar.cc ≡ c.bar.cc)
    → IsReady c
unfolding csts_rdy
still-IsReady c s same = (
  s,
  as_expected c.admin_q (csts_rdy c.bar.csts) c.bar.cc (omega arith)
      (λ h. s.present (sym s.rdy ∙ h)) (λ q h. s.rdy ∙ ap cc_en (same q h)),
)

update_cc-IsReady : (c : Controller) → IsSound c → IsReady (update_cc c)
unfolding update_cc cc_en
update_cc-IsReady c s =
    if-cases IsReady (c.old_bar.cc == c.bar.cc) (λ e. still-IsReady c s (λ q h. (==_iff _ _).0 e))
      (λ n.
        if-cases IsReady (cc_en c.bar.cc == 1)
          (λ e. elim (Option-cases c.admin_q) [
            | inl none_e ↦
                subst (λ o. IsReady (elim o [ none ↦ c | some q ↦ finish_cc 1 c ])) (sym none_e)
                  (still-IsReady c s (λ q h. cc (none_e, h)))
            | inr some_e ↦
                subst (λ o. IsReady (elim o [ none ↦ c | some q ↦ finish_cc 1 c ])) (sym some_e.1)
                  (finish-IsReady 1 c s (ground arith) (omega arith) (λ h. some_e))
          ])
          (λ e. finish-IsReady 0 c s (ground arith) (omega arith) (λ h. absurd (omega arith))))

copy-IsSound : (c : Controller) → IsSound c → IsSound (copy_registers c)
unfolding copy_registers
copy-IsSound c s = record { rdy = s.rdy; present = s.present; ring = s.ring }

pub proc_bars-IsReady :
    (mem : Memory) (c c' : Controller)
    → IsSound c
    → proc_bars mem c ≡ ok c'
    → IsSound c' × (csts_rdy c'.bar.csts ≡ expected_rdy c'.admin_q c'.bar.cc)
unfolding proc_bars
proc_bars-IsReady mem c c' s h =
    let asq = >>=-eq-ok (update_asq mem (update_aqa (copy_registers c))) _ h in
    let acq = >>=-eq-ok (update_acq mem asq.0) _ asq.2 in
    let s0 = update_aqa-IsSound (copy_registers c) (copy-IsSound c s) in
    let s1 = update_asq-IsSound mem _ asq.0 s0 asq.1 in
    let s2 = update_acq-IsSound mem asq.0 acq.0 s1 acq.1 in
    subst IsReady (ok-injective acq.2) (update_cc-IsReady acq.0 s2)
