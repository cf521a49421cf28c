-- ===== src/Dispatch/Enqueue.antt =====
-- __enqueue_io_req: the first free entry becomes a request in flight.
use femu_on_virt.Base.{
  ℕ, ◌<◌, ◌^◌, ◌≡◌, inl, inr, refl, subst, sym, ap, ◌∙◌, true, false, Bool-cases, List, [], ◌∷◌,
  ◌++◌, length, contains, contains-append, length-append, ok, arith, ◌==◌, ==_iff, ==-apart,
  ==_refl, update-other, minus_one32, last_of, Distinct, rev_onto, length-rev_onto,
  Distinct-rev_onto, Distinct-joined, Distinct-apart, Distinct-parts,
}
use mathlib.Core.List.{append-nil}
use femu_on_virt.Dispatch.Types.{ProcTable, ProcInfo}
use femu_on_virt.Dispatch.Table.{Request, write_request, insert_request}
use femu_on_virt.Dispatch.Links.{Forward, Forward-same, Linked, Linked-same}
use femu_on_virt.Dispatch.Lists.{HasLists}
use femu_on_virt.Dispatch.Chain.{Back}
use femu_on_virt.Dispatch.Place.{
  placed, placed_lem, IsPlaced, insert_some, insert_none, turn_chain, some,
}
use femu_on_virt.Dispatch.Insert.{InFlight}

module _ (fuel : ℕ) (r : Request) (pi : ProcInfo) (f g : ℕ) (fs ids : List ℕ)
    (t : HasLists pi f (g ∷ fs) ids) (h : length ids < fuel) where
  abbrev written : ProcInfo
  written = write_request f r (record pi { free_seq = g })

  written-same : (j : ℕ) → (j == f) ≡ false → written.proc_table j ≡ pi.proc_table j
  unfolding write_request
  written-same j ne = update-other pi.proc_table f _ j (==-apart _ _ ne)

  not_new : (j : ℕ) → contains j (g ∷ fs ++ ids) ≡ true → (j == f) ≡ false
  not_new j there = elim (Bool-cases (j == f)) [
    | inl e ↦
        absurd (cc (there, t.distinct.0, ap (λ a. contains a (g ∷ fs ++ ids)) ((==_iff _ _).0 e)))
    | inr e ↦ e
  ]

  written-Linked : Linked written minus_one32 pi.io_seq ids
  written-Linked =
      Linked-same pi written minus_one32 pi.io_seq ids
        (λ j c.
          let same =
            written-same j (not_new j (ground (arith, c, contains-append j (g ∷ fs) ids))) in
          (ap (λ (p : ProcTable). p.next) same, ap (λ (p : ProcTable). p.prev) same))
        t.flight

  new_alone :
      ((written.proc_table f).prev ≡ minus_one32)
      × ((written.proc_table f).next ≡ minus_one32)
      × ((written.proc_table f).nsecs_target ≡ r.nsecs_target)
  unfolding write_request
  new_alone = rw (==_refl f) (refl, refl, refl)

  written_ends :
      (written.io_seq ≡ pi.io_seq)
      × (written.io_seq_end ≡ pi.io_seq_end)
      × (written.free_seq ≡ g)
      × (written.free_seq_end ≡ pi.free_seq_end)
  unfolding write_request
  written_ends = (refl, refl, refl, refl)

  here_first : ids ≡ [] → written.io_seq ≡ minus_one32
  here_first e = written_ends.0 ∙ subst (Linked pi minus_one32 pi.io_seq) e t.flight

  small : f < 2 ^ 31
  small = omega (arith, t.inside f (ground arith))

  written-InFlight : (0 < length ids) → InFlight written (rev_onto [] ids)
  written-InFlight some =
      let (back, front) =
        turn_chain written minus_one32 pi.io_seq [] ids written-Linked refl written_ends.0 in
      let end : written.io_seq_end ≡ last_of minus_one32 ids = elim t.flight_end [
        | inl none ↦ absurd (omega (arith, some, ap length none))
        | inr e ↦ written_ends.1 ∙ e
      ] in
      record {
        back = subst (λ v. Back written v (rev_onto [] ids)) (sym end) back;
        front = front;
        distinct =
            Distinct-rev_onto [] ids (
              subst Distinct (sym (append-nil ids)) (Distinct-parts (f ∷ g ∷ fs) ids t.distinct).1);
      }

  written-IsPlaced :
      (l : List ℕ)
      → ids ≡ l
      → (pi' : ProcInfo) × (insert_request fuel f (written.proc_table f).nsecs_target written
          ≡ ok pi')
        × IsPlaced f ids written pi'
  written-IsPlaced [] e =
      let (pi', ran, p) =
        insert_none fuel f (written.proc_table f).nsecs_target written (here_first e) small
          (new_alone.0, new_alone.1) in
      (pi', ran, subst (λ l. IsPlaced f l written pi') (sym e) p)
  written-IsPlaced (a ∷ rest) e =
      let size : 0 < length ids = omega (arith, ap length e) in
      let (x, is, shape) = some (rev_onto [] ids) (omega (arith, length-rev_onto [] ids, size)) in
      insert_some fuel f written ids x is shape
        (subst (InFlight written) shape (written-InFlight size)) small
        (Distinct-apart f (f ∷ g ∷ fs) ids t.distinct (ground arith)) (new_alone.0, new_alone.1) h

  pub enqueued-HasLists :
      (pi' : ProcInfo) × (insert_request fuel f r.nsecs_target written ≡ ok pi')
      × HasLists pi' g fs (placed written f ids)
  enqueued-HasLists =
      let (pi', ran, p) = written-IsPlaced ids refl in
      (
        pi',
        subst (λ t. insert_request fuel f t written ≡ ok pi') new_alone.2 ran,
        record {
          free =
              subst (λ v. Forward pi' v (g ∷ fs)) (sym (p.free ∙ written_ends.2))
                (Forward-same pi pi' g (g ∷ fs)
                  (λ j c.
                    let inside : contains j (g ∷ fs ++ ids) ≡ true =
                      ground (arith, c, contains-append j (g ∷ fs) ids) in
                    p.others j (Distinct-apart j (f ∷ g ∷ fs) ids t.distinct (ground (arith, c)))
                      (not_new j inside) (omega (arith, t.inside j (ground (arith, inside))))
                    ∙ ap (λ (p : ProcTable). p.next) (written-same j (not_new j inside)))
                  (subst (λ v. Forward pi v (g ∷ fs)) t.free.2.0 t.free.2));
          free_end = p.free_end ∙ written_ends.3 ∙ t.free_end;
          flight = p.flight;
          distinct =
              Distinct-joined (g ∷ fs) (placed written f ids)
                (Distinct-parts (g ∷ fs) ids t.distinct.1).0 p.distinct
                (λ j c.
                  let inside : contains j (g ∷ fs ++ ids) ≡ true =
                    ground (arith, c, contains-append j (g ∷ fs) ids) in
                  ground (
                    arith,
                    (placed_lem written f j ids).0,
                    not_new j inside,
                    Distinct-apart j (f ∷ g ∷ fs) ids t.distinct (ground (arith, c)),
                  ));
          flight_end = inr p.flight_end;
          inside = λ j c. t.inside j (
              ground (
                arith,
                c,
                contains-append j (g ∷ fs) (placed written f ids),
                contains-append j (g ∷ fs) ids,
                (placed_lem written f j ids).0,
              ));
          count = omega (
            arith,
            t.count,
            length-append (g ∷ fs) (placed written f ids),
            length-append (g ∷ fs) ids,
            (placed_lem written f f ids).1,
          );
        },
      )
