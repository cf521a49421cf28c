-- ===== src/Pci/Faults.antt =====
-- When a poll of the registers dereferences a NULL admin queue.
use femu_on_virt.Base.{
  ◌≡◌, ◌≢◌, ◌⊎◌, inl, inr, refl, sym, ◌∙◌, ap, subst, some, none, Option-cases, Bool-cases, true,
  false, Run, ok, fault, ◌>>=◌, ◌==◌, if-cases, ==_iff, ==-false, ==-apart,
}
use femu_on_virt.Admin.Types.{AdminQueue, Memory}
use femu_on_virt.Pci.Bars.{
  Controller, proc_bars, copy_registers, update_aqa, update_asq, update_acq, update_cc,
}

-- No admin queue, and an address of a ring in front of its size.
pub record IsPremature (c : Controller) : Type 0 where
  pub none_yet : c.admin_q ≡ none
  pub no_size : c.old_bar.aqa ≡ c.bar.aqa
  pub address : (c.old_bar.asq ≢ c.bar.asq) ⊎ (c.old_bar.acq ≢ c.bar.acq)

abbrev Succeeds : Run Controller → Type 0
Succeeds m = (c' : Controller) × (m ≡ ok c')

rest : Memory → Controller → Run Controller
rest mem c = update_acq mem c >>= λ c2. ok (update_cc c2)

rest_ok :
    (mem : Memory) (c : Controller) (q : AdminQueue) → c.admin_q ≡ some q → Succeeds (rest mem c)
unfolding rest update_acq
rest_ok mem c q e =
    if-cases (λ m. Succeeds (m >>= λ c2. ok (update_cc c2))) (c.old_bar.acq == c.bar.acq)
      (λ h. (_, refl)) (λ h. rw e (_, refl))

with_queue_ok :
    (mem : Memory) (c : Controller) (q : AdminQueue)
    → c.admin_q ≡ some q
    → Succeeds (update_asq mem c >>= rest mem)
unfolding update_asq
with_queue_ok mem c q e =
    if-cases (λ m. Succeeds (m >>= rest mem)) (c.old_bar.asq == c.bar.asq) (λ h. rest_ok mem c q e)
      (λ h. rw e (rest_ok mem _ _ refl))

proc_bars-eq :
    (mem : Memory) (c : Controller)
    → proc_bars mem c ≡ (update_asq mem (update_aqa (copy_registers c)) >>= rest mem)
unfolding proc_bars rest
proc_bars-eq mem c = refl

-- With a new size there is a queue, whatever was there before.
new_size_ok :
    (mem : Memory) (c : Controller)
    → (c.old_bar.aqa == c.bar.aqa) ≡ false
    → Succeeds (update_asq mem (update_aqa (copy_registers c)) >>= rest mem)
unfolding update_aqa copy_registers
new_size_ok mem c e = rw e (with_queue_ok mem _ _ refl)

-- Without one, the registers are those that were copied.
module _ (mem : Memory) (c : Controller) (same : (c.old_bar.aqa == c.bar.aqa) ≡ true) where
  old_size : update_aqa (copy_registers c) ≡ copy_registers c
  unfolding update_aqa copy_registers
  old_size = rw same refl

  old_queue_ok :
      (q : AdminQueue)
      → c.admin_q ≡ some q
      → Succeeds (update_asq mem (update_aqa (copy_registers c)) >>= rest mem)
  unfolding copy_registers
  old_queue_ok q e =
      subst (λ x. Succeeds (update_asq mem x >>= rest mem)) (sym old_size)
        (with_queue_ok mem (copy_registers c) q e)

  asq_fault :
      c.admin_q ≡ none
      → (c.old_bar.asq == c.bar.asq) ≡ false
      → (update_asq mem (copy_registers c) >>= rest mem) ≡ fault
  unfolding update_asq copy_registers
  asq_fault e n = rw (n, e) refl

  acq_fault :
      c.admin_q ≡ none
      → (c.old_bar.asq == c.bar.asq) ≡ true
      → (c.old_bar.acq == c.bar.acq) ≡ false
      → (update_asq mem (copy_registers c) >>= rest mem) ≡ fault
  unfolding update_asq update_acq rest copy_registers
  acq_fault e s n = rw (s, n, e) refl

  nothing_ok :
      (c.old_bar.asq == c.bar.asq) ≡ true
      → (c.old_bar.acq == c.bar.acq) ≡ true
      → Succeeds (update_asq mem (copy_registers c) >>= rest mem)
  unfolding update_asq update_acq rest copy_registers
  nothing_ok s n = rw (s, n) (_, refl)

not_premature_ok :
    (mem : Memory) (c : Controller)
    → ¬ IsPremature c
    → Succeeds (update_asq mem (update_aqa (copy_registers c)) >>= rest mem)
not_premature_ok mem c not_yet = elim (Bool-cases (c.old_bar.aqa == c.bar.aqa)) [
  | inr n ↦ new_size_ok mem c n
  | inl same ↦ elim (Option-cases c.admin_q) [
    | inr there ↦ old_queue_ok mem c same there.0 there.1
    | inl e ↦
        let no = λ (a : (c.old_bar.asq ≢ c.bar.asq) ⊎ (c.old_bar.acq ≢ c.bar.acq)).
          not_yet (record { none_yet = e; no_size = (==_iff _ _).0 same; address = a }) in
        subst (λ x. Succeeds (update_asq mem x >>= rest mem)) (sym (old_size mem c same))
          (elim (Bool-cases (c.old_bar.asq == c.bar.asq)) [
            | inr n ↦ absurd (no (inl (==-apart _ _ n)))
            | inl s ↦ elim (Bool-cases (c.old_bar.acq == c.bar.acq)) [
              | inr n ↦ absurd (no (inr (==-apart _ _ n)))
              | inl a ↦ nothing_ok mem c same s a
            ]
          ])
  ]
]

too_early_or_not : (c : Controller) → IsPremature c ⊎ (¬ IsPremature c)
too_early_or_not c = elim (Option-cases c.admin_q) [
  | inr there ↦ inr (λ p. cc (p.none_yet, there.1))
  | inl absent ↦ elim (Bool-cases (c.old_bar.aqa == c.bar.aqa)) [
    | inr n ↦ inr (λ p. ==-apart _ _ n p.no_size)
    | inl same ↦ elim (Bool-cases (c.old_bar.asq == c.bar.asq)) [
      | inr n ↦ inl (record {
        none_yet = absent;
        no_size = (==_iff _ _).0 same;
        address = inl (==-apart _ _ n);
      })
      | inl s ↦ elim (Bool-cases (c.old_bar.acq == c.bar.acq)) [
        | inr n ↦ inl (record {
          none_yet = absent;
          no_size = (==_iff _ _).0 same;
          address = inr (==-apart _ _ n);
        })
        | inl t ↦ inr (λ p. elim p.address [
          | inl ne ↦ ne ((==_iff _ _).0 s)
          | inr ne ↦ ne ((==_iff _ _).0 t)
        ])
      ]
    ]
  ]
]

premature_fault : (mem : Memory) (c : Controller) → IsPremature c → proc_bars mem c ≡ fault
premature_fault mem c p =
    let same = (==_iff _ _).1 p.no_size in
    proc_bars-eq mem c
    ∙ ap (λ x. update_asq mem x >>= rest mem) (old_size mem c same)
    ∙ elim (Bool-cases (c.old_bar.asq == c.bar.asq)) [
      | inl s ↦ elim p.address [
        | inl ne ↦ absurd (ne ((==_iff _ _).0 s))
        | inr ne ↦ acq_fault mem c same p.none_yet s (==-false _ _ ne)
      ]
      | inr n ↦ asq_fault mem c same p.none_yet n
    ]

-- nvmev_proc_bars dereferences a NULL pointer if and only if there is no admin queue, AQA has not
-- changed, and ASQ or ACQ has; in every other case it succeeds.
pub proc_bars_faults :
    (mem : Memory) (c : Controller)
    → (IsPremature c × (proc_bars mem c ≡ fault))
      ⊎ ((¬ IsPremature c) × (c' : Controller) × (proc_bars mem c ≡ ok c'))
proc_bars_faults mem c = elim (too_early_or_not c) [
  | inl p ↦ inl (p, premature_fault mem c p)
  | inr not_yet ↦
      let done = not_premature_ok mem c not_yet in
      inr (not_yet, done.0, proc_bars-eq mem c ∙ done.1)
]
