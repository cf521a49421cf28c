-- ===== src/Dispatch/Steps.antt =====
-- The two steps of a worker for one request, and the links of the table that they leave.
use femu_on_virt.Base.{
  ℕ, ◌+◌, ◌*◌, ◌<◌, ◌≡◌, ◌⊎◌, refl, subst, sym, ap, ◌∙◌, Bool, true, false, ◌||◌, Bool-cases,
  Option-cases, inl, inr, List, [], ◌∷◌, ◌++◌, Option, some, fault, ok, arith, ◌==◌, ==_iff, update,
  contains, minus_one32,
}
use mathlib.Core.List.{append-nil}
use femu_on_virt.Dispatch.Types.{ProcTable, ProcInfo, CompletionQueue}
use femu_on_virt.Dispatch.Completions.{fill_cq_result}
use femu_on_virt.Dispatch.Links.{Forward, Forward-same, Linked, Linked-same}
use femu_on_virt.Dispatch.Lists.{HasLists}
use femu_on_virt.Dispatch.Transfer.{do_perform_io-Covers}
use femu_on_virt.Dispatch.Worker.{
  Transfer, Moved, Work, set_entry, io_fuel, copy_request, complete_request,
}
use femu_on_virt.Dispatch.Served.{flags, present, movable, fresh, post_one, IsMove, AreMoves}

pub record SameLinks (pi pi' : ProcInfo) : Type 0 where
  pub next : (j : ℕ) → (pi'.proc_table j).next ≡ (pi.proc_table j).next
  pub prev : (j : ℕ) → (pi'.proc_table j).prev ≡ (pi.proc_table j).prev
  pub free : pi'.free_seq ≡ pi.free_seq
  pub free_end : pi'.free_seq_end ≡ pi.free_seq_end
  pub io : pi'.io_seq ≡ pi.io_seq
  pub io_end : pi'.io_seq_end ≡ pi.io_seq_end

pub refl_links : (pi : ProcInfo) → SameLinks pi pi
refl_links pi = record {
  next = λ j. refl;
  prev = λ j. refl;
  free = refl;
  free_end = refl;
  io = refl;
  io_end = refl;
}

pub trans-SameLinks : (a b c : ProcInfo) → SameLinks a b → SameLinks b c → SameLinks a c
trans-SameLinks a b c x y = record {
  next = λ j. y.next j ∙ x.next j;
  prev = λ j. y.prev j ∙ x.prev j;
  free = y.free ∙ x.free;
  free_end = y.free_end ∙ x.free_end;
  io = y.io ∙ x.io;
  io_end = y.io_end ∙ x.io_end;
}

pub SameLinks-HasLists :
    (pi pi' : ProcInfo) (f : ℕ) (fs ids : List ℕ)
    → SameLinks pi pi'
    → HasLists pi f fs ids
    → HasLists pi' f fs ids
SameLinks-HasLists pi pi' f fs ids s t = record {
  free =
      subst (λ v. Forward pi' v (f ∷ fs)) (sym s.free)
        (Forward-same pi pi' pi.free_seq (f ∷ fs) (λ j c. s.next j) t.free);
  free_end = s.free_end ∙ t.free_end;
  flight =
      subst (λ v. Linked pi' minus_one32 v ids) (sym s.io)
        (Linked-same pi pi' minus_one32 pi.io_seq ids (λ j c. (s.next j, s.prev j)) t.flight);
  distinct = t.distinct;
  flight_end = elim t.flight_end [ inl e ↦ inl e | inr e ↦ inr (s.io_end ∙ e) ];
  inside = t.inside;
  count = t.count;
}

set_entry-SameLinks :
    (curr : ℕ) (pe : ProcTable) (w : Work)
    → pe.next ≡ (w.pi.proc_table curr).next
    → pe.prev ≡ (w.pi.proc_table curr).prev
    → SameLinks w.pi (set_entry curr pe w).pi
unfolding set_entry
set_entry-SameLinks curr pe w n p = record {
  next = λ j. ground (arith, n);
  prev = λ j. ground (arith, p);
  free = refl;
  free_end = refl;
  io = refl;
  io_end = refl;
}

-- The table with the time of the last request looked at.
pub at_time : (t : ℕ) (pi : ProcInfo) → SameLinks pi (record pi { proc_io_nsecs = t })
at_time t pi = record {
  next = λ j. refl;
  prev = λ j. refl;
  free = refl;
  free_end = refl;
  io = refl;
  io_end = refl;
}

or_none : (a : Bool) → (a || false) ≡ a
or_none true = refl
or_none false = refl

pub flags_none : (p : ProcTable) → flags p false false ≡ p
flags_none p = rw (or_none p.is_copied, or_none p.is_completed) refl

-- What a step does: it marks requests as copied or completed, posts completions and makes copies.
pub record Does (w w' : Work) (copied completed : List ℕ) (cqes : ℕ → Option CompletionQueue)
    (moved : List Moved) : Type 0 where
  pub rows :
      (j : ℕ)
      → w'.pi.proc_table j ≡ flags (w.pi.proc_table j) (contains j copied) (contains j completed)
  pub posted : w'.cqes ≡ cqes
  pub moves : w'.moved ≡ w.moved ++ moved
  pub links : SameLinks w.pi w'.pi

pub no_step : (w : Work) → Does w w [] [] w.cqes []
no_step w = record {
  rows = λ j. sym (flags_none (w.pi.proc_table j));
  posted = refl;
  moves = sym (append-nil w.moved);
  links = refl_links w.pi;
}

copied_row :
    (w : Work) (i j : ℕ)
    → (w.pi.proc_table i).is_copied ≡ false
    → update w.pi.proc_table i (record (w.pi.proc_table i) { is_copied = true }) j
      ≡ flags (w.pi.proc_table j) (contains j (i ∷ [])) false
copied_row w i j e = elim (Bool-cases (i == j)) [
  | inl here ↦
      rw (here, sym ((==_iff _ _).0 here), e, or_none (w.pi.proc_table i).is_completed) refl
  | inr other ↦ rw other (sym (flags_none (w.pi.proc_table j)))
]

or_true : (a : Bool) → (a || true) ≡ true
or_true true = refl
or_true false = refl

completed_row :
    (w : Work) (i j : ℕ)
    → update w.pi.proc_table i (record (w.pi.proc_table i) { is_completed = true }) j
      ≡ flags (w.pi.proc_table j) false (contains j (i ∷ []))
completed_row w i j = elim (Bool-cases (i == j)) [
  | inl here ↦
      rw
        (
          here,
          sym ((==_iff _ _).0 here),
          or_none (w.pi.proc_table i).is_copied,
          or_true (w.pi.proc_table i).is_completed,
        )
        refl
  | inr other ↦ rw other (sym (flags_none (w.pi.proc_table j)))
]

module _ (source : ℕ → ℕ → Option Transfer) (table : ℕ → ProcTable) (i : ℕ) (w : Work)
    (row : w.pi.proc_table i ≡ table i) where
  -- The request is copied, or the step faults.
  abbrev pub Copies : Type 0
  Copies =
      ((copy_request source i w ≡ fault)
        × (movable (source (table i).sqid (table i).sq_entry) ≡ false))
      ⊎ ((w' : Work) × (ms : List Moved) × (copy_request source i w ≡ ok w')
          × Does w w' (fresh table i) [] w.cqes ms
          × AreMoves source table (fresh table i) ms)

  io_fuel_lem : (t : Transfer) → (t.rw.length + 1) * 512 < io_fuel t.rw
  unfolding io_fuel
  io_fuel_lem t = omega arith

  copies_now :
      (t : Transfer)
      → (table i).is_copied ≡ false
      → source (table i).sqid (table i).sq_entry ≡ some t
      → Copies
  unfolding copy_request set_entry
  copies_now t e there =
      let fresh_one : fresh table i ≡ i ∷ [] = rw e refl in
      let not_copied = ap (λ (p : ProcTable). p.is_copied) row ∙ e in
      let found = ap (λ (p : ProcTable). source p.sqid p.sq_entry) row ∙ there in
      elim (do_perform_io-Covers t.rw t.prp_list (io_fuel t.rw) (io_fuel_lem t)) [
        | inl o ↦ inl (rw (copy_request, not_copied, found, o.1) refl, rw (there, o.0) refl)
        | inr o ↦
            let (fits, made) = o in
            let (cs, ran, covers, aligned) = made in
            let m : Moved = record { entry = i; write = t.write; copies = cs } in
            let w' =
              set_entry i (record (w.pi.proc_table i) { is_copied = true })
                (record w { moved = w.moved ++ m ∷ [] }) in
            let step : Does w w' (i ∷ []) [] w.cqes (m ∷ []) = record {
              rows = λ j. copied_row w i j not_copied;
              posted = refl;
              moves = refl;
              links =
                  set_entry-SameLinks i (record (w.pi.proc_table i) { is_copied = true })
                    (record w { moved = w.moved ++ m ∷ [] }) refl refl;
            } in
            let move : IsMove source table i m = record {
              entry = refl;
              transfer = t;
              command = there;
              direction = refl;
              run = ran;
              covers = covers;
            } in
            inr (
              w',
              m ∷ [],
              rw (copy_request, not_copied, found, ran) refl,
              subst (λ l. Does w w' l [] w.cqes (m ∷ [])) (sym fresh_one) step,
              subst (λ l. AreMoves source table l (m ∷ [])) (sym fresh_one) (move, tt),
            )
      ]

  pub copies : Copies
  unfolding copy_request
  copies = elim (Bool-cases (table i).is_copied) [
    | inl e ↦
        let no_fresh : fresh table i ≡ [] = rw e refl in
        inr (
          w,
          [],
          rw (copy_request, ap (λ (p : ProcTable). p.is_copied) row ∙ e) refl,
          subst (λ l. Does w w l [] w.cqes []) (sym no_fresh) (no_step w),
          subst (λ l. AreMoves source table l []) (sym no_fresh) tt,
        )
    | inr e ↦ elim (Option-cases (source (table i).sqid (table i).sq_entry)) [
      | inl gone ↦
          let found = ap (λ (p : ProcTable). source p.sqid p.sq_entry) row ∙ gone in
          inl (
            rw (copy_request, ap (λ (p : ProcTable). p.is_copied) row ∙ e, found) refl,
            rw gone refl,
          )
      | inr there ↦ copies_now there.0 e there.1
    ]
  ]

  abbrev pub Completes : Type 0
  Completes =
      ((complete_request i w ≡ fault) × (present (w.cqes (table i).cqid) ≡ false))
      ⊎ ((w' : Work) × (complete_request i w ≡ ok w')
          × Does w w' [] (i ∷ []) (post_one (table i) w.cqes) [])

  pub completes : Completes
  unfolding complete_request set_entry
  completes = elim (Option-cases (w.cqes (table i).cqid)) [
    | inl gone ↦
        inl (
          rw (complete_request, ap (λ (p : ProcTable). w.cqes p.cqid) row ∙ gone) refl,
          rw gone refl,
        )
    | inr there ↦
        let found = ap (λ (p : ProcTable). w.cqes p.cqid) row ∙ there.1 in
        let pe = w.pi.proc_table i in
        let cq = fill_cq_result pe.sqid pe.sq_entry pe.command_id there.0 in
        let before = record w { cqes = update w.cqes pe.cqid (some cq) } in
        let w' = set_entry i (record pe { is_completed = true }) before in
        inr (
          w',
          rw (complete_request, found) refl,
          record {
            rows = λ j. completed_row w i j;
            posted =
                subst
                  (λ (p : ProcTable).
                    update w.cqes p.cqid
                      (some (fill_cq_result p.sqid p.sq_entry p.command_id there.0))
                    ≡ post_one (table i) w.cqes)
                  (sym row) (rw (post_one, there.1) refl);
            moves = sym (append-nil w.moved);
            links = set_entry-SameLinks i (record pe { is_completed = true }) before refl refl;
          },
        )
  ]
