-- ===== src/Pci/Machine.antt =====
-- The host and the dispatcher on the registers and the admin queue, in any order of their steps.
use femu_on_virt.Base.{ℕ, ◌≡◌, refl, sym, ◌∙◌, ap, subst, some, none, ok, arith}
use mathlib.Core.Option.{some-injective}
use femu_on_virt.Dispatch.Types.{Completion}
use femu_on_virt.Admin.Types.{AdminQueue, Memory, Queues}
use femu_on_virt.Admin.Requests.{proc_admin_req}
use femu_on_virt.Admin.Delivery.{IsAdminRing}
use femu_on_virt.Admin.Kept.{request-IsAdminRing}
use femu_on_virt.Pci.Bars.{Bar, Controller, csts_rdy, cc_en, proc_bars}
use femu_on_virt.Pci.Ready.{IsSound, expected_rdy, proc_bars-IsReady}

pub record System : Type 0 where
  pub controller : Controller
  pub queues : Queues

-- The host writes registers, but not the read-only CSTS; the dispatcher polls; and it takes an admin
-- request, once the completion ring has an address.
pub data Step (mem : Memory) : System → System → Type 0 where
  writes :
      (s : System) (bar : Bar)
      → bar.csts ≡ s.controller.bar.csts
      → Step mem s (record s { controller = record (s.controller) { bar = bar } })
  polls :
      (s : System) (c : Controller)
      → proc_bars mem s.controller ≡ ok c
      → Step mem s (record s { controller = c })
  serves :
      (s : System) (eid : ℕ) (q : AdminQueue) (cq : ℕ → Completion) (r : AdminQueue × Queues)
      → s.controller.admin_q ≡ some q
      → q.nvme_cq ≡ some cq
      → proc_admin_req mem eid (q, s.queues) ≡ ok r
      → Step mem s
          (record s { controller = record (s.controller) { admin_q = some r.0 }; queues = r.1 })

pub data Reach (mem : Memory) (s : System) : System → Type 0 where
  start : Reach mem s s
  extend : {t u : System} → Reach mem s t → Step mem t u → Reach mem s u

Step-IsSound :
    (mem : Memory) {s t : System} → Step mem s t → IsSound s.controller → IsSound t.controller
Step-IsSound mem (writes s bar same) h = record {
  rdy = ap csts_rdy same ∙ h.rdy;
  present = h.present;
  ring = h.ring;
}
Step-IsSound mem (polls s c e) h = (proc_bars-IsReady mem s.controller c h e).0
Step-IsSound mem (serves s eid q cq r there ring e) h = record {
  rdy = h.rdy;
  present = λ b. (r.0, refl);
  ring = λ q' e'.
      subst IsAdminRing (some-injective _ _ e')
        (request-IsAdminRing mem eid q s.queues cq (h.ring q there) ring r e);
}

Reach-IsSound :
    (mem : Memory) {s t : System} → Reach mem s t → IsSound s.controller → IsSound t.controller
Reach-IsSound mem start h = h
Reach-IsSound mem (extend r st) h = Step-IsSound mem st (Reach-IsSound mem r h)

-- The device after the registers have been reset.
pub record IsReset (s : System) : Type 0 where
  pub csts : csts_rdy s.controller.bar.csts ≡ 0
  pub cc : s.controller.old_bar.cc ≡ 0
  pub admin_q : s.controller.admin_q ≡ none

reset-IsSound : (s : System) → IsReset s → IsSound s.controller
unfolding cc_en
reset-IsSound s i = record {
  rdy = i.csts ∙ sym (ap cc_en i.cc);
  present = λ e. absurd (omega (arith, e, i.cc));
  ring = λ q e. cc (e, i.admin_q);
}

-- From a reset, in any order of writes of the host to the registers other than CSTS, polls of the
-- dispatcher (nvmev_proc_bars) that succeed, and admin requests over a completion ring that has
-- its address: CSTS.RDY is set only if there is an admin queue, the head of an admin queue is
-- within its completion ring and its phase is a bit; and after a further poll that succeeds,
-- CSTS.RDY is the enable bit of CC if there is an admin queue, and 0 otherwise.
pub Reach-IsReady :
    (mem : Memory) (s t : System) (c : Controller)
    → IsReset s
    → Reach mem s t
    → proc_bars mem t.controller ≡ ok c
    → IsSound t.controller × (csts_rdy c.bar.csts ≡ expected_rdy c.admin_q c.bar.cc)
Reach-IsReady mem s t c i r e =
    let sound = Reach-IsSound mem r (reset-IsSound s i) in
    (sound, (proc_bars-IsReady mem t.controller c sound e).1)
