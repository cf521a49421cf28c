-- ===== src/Dispatch/Freed.antt =====
-- What __reclaim_completed_reqs does to the links of a table when it frees the requests up to one.
use femu_on_virt.Base.{
  ℕ, ◌≡◌, ◌⊎◌, refl, sym, ◌∙◌, ap, subst, true, false, ◌&&◌, Bool-cases, inl, inr, List, [], ◌∷◌,
  ◌++◌, length, contains, arith, ◌==◌, ==_iff, if◌then◌else◌, minus_one32, last_of, last_of-append,
  not, Distinct-apart, last_of-in, Distinct, Distinct-parts, contains-append,
}
use mathlib.Core.List.{append-nil, append_assoc}
use femu_on_virt.Dispatch.Types.{ProcInfo}
use femu_on_virt.Dispatch.Table.{set_next, set_prev, free_requests}
use femu_on_virt.Dispatch.Lists.{HasLists}
use femu_on_virt.Dispatch.Links.{Forward, Linked, Linked-Forward, rejoin, Linked-rest, Linked-same}

-- The links after free_requests.
module _ (last : ℕ) (pi : ProcInfo) where
  freed_next :
      (j : ℕ)
      → ((free_requests last pi).proc_table j).next ≡ (
          if j == pi.free_seq_end
          then pi.io_seq
          else if j == last
          then minus_one32
          else (pi.proc_table j).next)
  unfolding free_requests set_next set_prev
  freed_next j = elim (Bool-cases ((pi.proc_table last).next == minus_one32)) [
    | inl e ↦ rw e (ground arith)
    | inr e ↦ rw e (ground arith)
  ]

  freed_prev :
      (j : ℕ)
      → ((free_requests last pi).proc_table j).prev ≡ (
          if j == pi.io_seq
          then pi.free_seq_end
          else if (j == (pi.proc_table last).next) && not (j == minus_one32)
          then minus_one32
          else (pi.proc_table j).prev)
  unfolding free_requests set_next set_prev
  freed_prev j = elim (Bool-cases ((pi.proc_table last).next == minus_one32)) [
    | inl e ↦ rw e (ground arith)
    | inr e ↦ rw e (ground arith)
  ]

-- The ends of both lists after free_requests.
freed_ends :
    (last : ℕ) (pi : ProcInfo)
    → ((free_requests last pi).free_seq ≡ pi.free_seq)
      × ((free_requests last pi).free_seq_end ≡ last)
      × ((free_requests last pi).io_seq ≡ (pi.proc_table last).next)
      × ((free_requests last pi).io_seq_end ≡ pi.io_seq_end)
unfolding free_requests set_next set_prev
freed_ends last pi = elim (Bool-cases ((pi.proc_table last).next == minus_one32)) [
  | inl e ↦ rw e (refl, refl, refl, refl)
  | inr e ↦ rw e (refl, refl, refl, refl)
]

-- The requests `x` up to the last one of `xs` go from the head of those in flight to the free list.
module _ (pi : ProcInfo) (f : ℕ) (fs : List ℕ) (x : ℕ) (xs rest : List ℕ)
    (t : HasLists pi f fs (x ∷ xs ++ rest)) where
  abbrev last : ℕ
  last = last_of x xs

  abbrev freed : ProcInfo
  freed = free_requests last pi

  flight_apart : Distinct (x ∷ xs ++ rest)
  flight_apart = (Distinct-parts (f ∷ fs) (x ∷ xs ++ rest) t.distinct).1

  -- No request in flight is the last free entry.
  not_free_end : (j : ℕ) → contains j (x ∷ xs ++ rest) ≡ true → (j == pi.free_seq_end) ≡ false
  not_free_end j there = elim (Bool-cases (j == pi.free_seq_end)) [
    | inl e ↦
        let same : j ≡ last_of f fs = (==_iff _ _).0 e ∙ t.free_end in
        let apart =
          Distinct-apart (last_of f fs) (f ∷ fs) (x ∷ xs ++ rest) t.distinct (last_of-in f fs) in
        absurd (cc (there, subst (λ a. contains a (x ∷ xs ++ rest) ≡ false) (sym same) apart))
    | inr e ↦ e
  ]

  left_there : (j : ℕ) → contains j (x ∷ xs) ≡ true → contains j (x ∷ xs ++ rest) ≡ true
  left_there j there = ground (arith, contains-append j (x ∷ xs) rest)

  last_there : contains last (x ∷ xs ++ rest) ≡ true
  last_there = left_there last (last_of-in x xs)

  taken-Forward : Forward freed pi.io_seq (x ∷ xs)
  taken-Forward = subst (Forward freed pi.io_seq) (append-nil (x ∷ xs)) (
      rejoin pi freed minus_one32 rest [] refl x xs pi.io_seq
        (Linked-Forward pi minus_one32 pi.io_seq (x ∷ xs ++ rest) t.flight)
        (Distinct-parts (x ∷ xs) rest flight_apart).0
        (ground (arith, freed_next last pi last, not_free_end last last_there))
        (λ j there ne.
          ground (arith, freed_next last pi j, not_free_end j (left_there j there), ne)))

  not_taken : (j : ℕ) → contains j (f ∷ fs) ≡ true → (j == last) ≡ false
  not_taken j there = elim (Bool-cases (j == last)) [
    | inl e ↦
        let apart = Distinct-apart j (f ∷ fs) (x ∷ xs ++ rest) t.distinct there in
        absurd (
          cc
            (last_there, subst (λ a. contains a (x ∷ xs ++ rest) ≡ false) ((==_iff _ _).0 e) apart))
    | inr e ↦ e
  ]

  free-Forward : Forward freed pi.free_seq (f ∷ fs ++ x ∷ xs)
  free-Forward =
      rejoin pi freed pi.io_seq [] (x ∷ xs) taken-Forward f fs pi.free_seq
        (subst (Forward pi pi.free_seq) (sym (append-nil (f ∷ fs))) t.free)
        (Distinct-parts (f ∷ fs) (x ∷ xs ++ rest) t.distinct).0
        (ground (arith, freed_next last pi (last_of f fs), t.free_end))
        (λ j there ne. ground (arith, freed_next last pi j, t.free_end, ne, not_taken j there))

  rest_apart : (j k : ℕ) → contains j rest ≡ true → contains k (x ∷ xs) ≡ true → (j == k) ≡ false
  rest_apart j k there here = elim (Bool-cases (j == k)) [
    | inl e ↦
        let apart = Distinct-apart k (x ∷ xs) rest flight_apart here in
        absurd (cc (there, subst (λ a. contains a rest ≡ false) (sym ((==_iff _ _).0 e)) apart))
    | inr e ↦ e
  ]

  rest_next : (j : ℕ) → contains j rest ≡ true → (freed.proc_table j).next ≡ (pi.proc_table j).next
  rest_next j there =
      let inside : contains j (x ∷ xs ++ rest) ≡ true =
        ground (arith, contains-append j (x ∷ xs) rest) in
      rw (freed_next last pi j, not_free_end j inside, rest_apart j last there (last_of-in x xs))
        refl

  rest_not_first : (j : ℕ) → contains j rest ≡ true → (j == pi.io_seq) ≡ false
  rest_not_first j there = rw (t.flight.0) (rest_apart j x there (ground arith))

  rest-Linked :
      (r : List ℕ)
      → rest ≡ r
      → Linked pi last (pi.proc_table last).next r
      → Linked freed minus_one32 (pi.proc_table last).next r
  rest-Linked [] e l = l
  rest-Linked (y ∷ ys) e l =
      let there : (j : ℕ) → contains j (y ∷ ys) ≡ true → contains j rest ≡ true =
        λ j c. subst (λ r. contains j r ≡ true) (sym e) c in
      let right = subst Distinct e (Distinct-parts (x ∷ xs) rest flight_apart).1 in
      let next = rest_next y (there y (ground arith)) in
      (
        l.0,
        l.1,
        ground (arith, freed_prev last pi y, rest_not_first y (there y (ground arith)), l.0, l.1),
        subst (λ v. Linked freed y v ys) (sym next)
            (Linked-same pi freed y (pi.proc_table y).next ys
              (λ j c.
                let inside = there j (ground (arith, c)) in
                (
                  rest_next j inside,
                  ground (arith, freed_prev last pi j, rest_not_first j inside, l.0, right.0, c),
                ))
              l.3),
      )

  rest_end : (r : List ℕ) → rest ≡ r → (rest ≡ []) ⊎ (pi.io_seq_end ≡ last_of minus_one32 rest)
  rest_end [] e = inl e
  rest_end (y ∷ ys) e = elim t.flight_end [
    | inl none ↦ cc none
    | inr at ↦ inr (
        at
        ∙ ap (λ r. last_of x (xs ++ r)) e
        ∙ last_of-append x y xs ys
        ∙ ap (last_of minus_one32) (sym e))
  ]

  pub freed-HasLists : HasLists freed f (fs ++ x ∷ xs) rest
  freed-HasLists =
      let (free, free_end, head, end) = freed_ends last pi in
      let same = append_assoc (f ∷ fs) (x ∷ xs) rest in
      record {
        free = subst (λ v. Forward freed v (f ∷ fs ++ x ∷ xs)) (sym free) free-Forward;
        free_end = free_end ∙ sym (last_of-append f x fs xs);
        flight =
            subst (λ v. Linked freed minus_one32 v rest) (sym head)
              (rest-Linked rest refl (Linked-rest pi minus_one32 pi.io_seq x xs rest t.flight));
        distinct = subst Distinct (sym same) t.distinct;
        flight_end = elim (rest_end rest refl) [ inl none ↦ inl none | inr e ↦ inr (end ∙ e) ];
        inside = λ j c. t.inside j (subst (λ l. contains j l ≡ true) same c);
        count = ap length same ∙ t.count;
      }
