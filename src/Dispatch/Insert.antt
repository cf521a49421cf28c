-- ===== src/Dispatch/Insert.antt =====
-- The insertion of __enqueue_io_req: the requests in flight stay a chain, in the order of their times
-- of completion.
use femu_on_virt.Base.{
  ℕ, ◌≤◌, ◌<◌, ◌^◌, ◌≡◌, ◌≢◌, refl, sym, ◌∙◌, ap, subst, false, Bool-cases, inl, inr, List, [], ◌∷◌,
  ◌++◌, length, contains, ok, arith, ltb, ◌==◌, ==-false, if◌then◌else◌, minus_one32, Distinct,
  Distinct-insert, last_of, contains-append,
}
use mathlib.Core.List.{append-nil}
use femu_on_virt.Dispatch.Types.{ProcInfo}
use femu_on_virt.Dispatch.Table.{link_request, insert_request}
use femu_on_virt.Dispatch.Chain.{
  Back, Front, stops, later, earlier, first_or_none, find_place-Back, IsLinked, Back-real,
  Back-first, Back-kept, Back-linked, Front-linked,
}

-- The requests in flight, from the end to the head.
pub record InFlight (pi : ProcInfo) (ids : List ℕ) : Type 0 where
  pub back : Back pi pi.io_seq_end ids
  pub front : Front pi minus_one32 ids
  pub distinct : Distinct ids

-- The time until which a request is in flight: its time of completion, or now if that has passed.
abbrev pub due : ProcInfo → ℕ → ℕ
due pi i =
    if ltb (pi.proc_table i).nsecs_target pi.proc_io_nsecs
    then pi.proc_io_nsecs
    else (pi.proc_table i).nsecs_target

-- No request is due later than the one behind it, and the last one not later than `bound`.
abbrev pub Descends : ProcInfo → ℕ → List ℕ → Type 0
Descends pi bound [] = Unit
Descends pi bound (i ∷ is) = (due pi i ≤ bound) × Descends pi (due pi i) is

split : (pi : ProcInfo) (t : ℕ) (ids : List ℕ) → later pi t ids ++ earlier pi t ids ≡ ids
split pi t [] = refl
split pi t (i ∷ is) = elim (Bool-cases (stops pi t i)) [
  | inl e ↦ rw e refl
  | inr e ↦ rw e (ap (λ l. i ∷ l) (split pi t is))
]

Descends-insert :
    (pi : ProcInfo) (e bound : ℕ) (ids : List ℕ)
    → Descends pi bound ids
    → due pi e ≤ bound
    → Descends pi bound (
        later pi (pi.proc_table e).nsecs_target ids
        ++ e ∷ earlier pi (pi.proc_table e).nsecs_target ids)
Descends-insert pi e bound [] d h = (h, tt)
Descends-insert pi e bound (i ∷ is) d h =
    elim (Bool-cases (stops pi (pi.proc_table e).nsecs_target i)) [
      | inl s ↦ rw s (h, (ground arith, d.1))
      | inr s ↦ rw s (d.0, Descends-insert pi e (due pi i) is d.1 (ground arith))
    ]

Front-head : (pi : ProcInfo) (n : ℕ) (ids : List ℕ) → Front pi n ids → pi.io_seq ≡ last_of n ids
Front-head pi n [] f = f
Front-head pi n (i ∷ is) f = Front-head pi i is f.1

Front-next :
    (pi : ProcInfo) (n : ℕ) (xs : List ℕ) (y : ℕ) (ys : List ℕ)
    → Front pi n (xs ++ y ∷ ys)
    → (pi.proc_table y).next ≡ last_of n xs
Front-next pi n [] y ys f = f.0
Front-next pi n (x ∷ xs) y ys f = Front-next pi x xs y ys f.1

-- The two ways of link_request.
module _ (e : ℕ) (pi : ProcInfo) (real : e ≢ minus_one32)
    (alone : ((pi.proc_table e).prev ≡ minus_one32) × ((pi.proc_table e).next ≡ minus_one32)) where
  link_head-IsLinked :
      pi.io_seq ≢ minus_one32
      → e ≢ pi.io_seq
      → IsLinked e minus_one32 pi.io_seq pi (link_request e minus_one32 pi)
  unfolding link_request
  link_head-IsLinked h ne = record {
    prev = λ j r. ground arith;
    next = λ j r. ground arith;
    head = ground arith;
    end = ground arith;
  }

  link_behind-IsLinked :
      (curr : ℕ)
      → curr ≢ minus_one32
      → e ≢ curr
      → e ≢ (pi.proc_table curr).next
      → curr ≢ (pi.proc_table curr).next
      → IsLinked e curr (pi.proc_table curr).next pi (link_request e curr pi)
  unfolding link_request
  link_behind-IsLinked curr h ne ne' ne2 = record {
    prev = λ j r. ground arith;
    next = λ j r. ground arith;
    head = ground arith;
    end = ground arith;
  }

last_of-apart : (a x : ℕ) (xs : List ℕ) → contains a (x ∷ xs) ≡ false → a ≢ last_of x xs
last_of-apart a x [] c e = ground arith
last_of-apart a x (y ∷ xs) c e = last_of-apart a y xs (ground arith) e

-- The request before the place is not behind it.
first-apart :
    (n : ℕ) (xs : List ℕ) (y : ℕ) (ys : List ℕ) → Distinct (xs ++ y ∷ ys) → y ≢ n → y ≢ last_of n xs
first-apart n [] y ys d ne = ne
first-apart n (x ∷ xs) y ys d ne =
    first-apart x xs y ys d.1 (λ e. ground (arith, e, d.0, contains-append x xs (y ∷ ys)))

last-apart : (a n : ℕ) (xs : List ℕ) → contains a xs ≡ false → a ≢ n → a ≢ last_of n xs
last-apart a n [] c ne = ne
last-apart a n (x ∷ xs) c ne = last_of-apart a x xs c

module _ (e : ℕ) (pi : ProcInfo) (small : e < 2 ^ 31)
    (alone : ((pi.proc_table e).prev ≡ minus_one32) × ((pi.proc_table e).next ≡ minus_one32)) where
  linked :
      (xs ys : List ℕ)
      → Front pi minus_one32 (xs ++ ys)
      → contains minus_one32 (xs ++ ys) ≡ false
      → contains e (xs ++ ys) ≡ false
      → Distinct (xs ++ ys)
      → pi.io_seq ≢ minus_one32
      → IsLinked e
          (first_or_none ys)
          (last_of minus_one32 xs)
          pi
          (link_request e (first_or_none ys) pi)
  linked xs [] f real ne d some_seq =
      let at : pi.io_seq ≡ last_of minus_one32 xs =
        Front-head pi minus_one32 xs (subst (λ l. Front pi minus_one32 l) (append-nil xs) f) in
      let far : e ≢ pi.io_seq = λ g.
        last-apart e minus_one32 xs (subst (λ l. contains e l ≡ false) (append-nil xs) ne)
          (omega arith) (g ∙ at) in
      subst (λ a. IsLinked e minus_one32 a pi (link_request e minus_one32 pi)) at
        (link_head-IsLinked e pi (omega arith) alone some_seq far)
  linked xs (y ∷ ys) f real ne d some_seq =
      let at : (pi.proc_table y).next ≡ last_of minus_one32 xs =
        Front-next pi minus_one32 xs y ys f in
      let y_real : y ≢ minus_one32 = λ g. ground (arith, contains-append minus_one32 xs (y ∷ ys)) in
      let e_y : e ≢ y = λ g. ground (arith, contains-append e xs (y ∷ ys)) in
      let e_xs : contains e xs ≡ false = ground (arith, contains-append e xs (y ∷ ys)) in
      subst (λ a. IsLinked e y a pi (link_request e y pi)) at
        (link_behind-IsLinked e pi (omega arith) alone y y_real e_y
          (λ g. last-apart e minus_one32 xs e_xs (omega arith) (g ∙ at))
          (λ g. first-apart minus_one32 xs y ys d y_real (g ∙ at)))

relinked-Back :
    (e : ℕ) (xs ys : List ℕ) (pi pi' : ProcInfo)
    → e < 2 ^ 31
    → IsLinked e (first_or_none ys) (last_of minus_one32 xs) pi pi'
    → Distinct (xs ++ ys)
    → contains e (xs ++ ys) ≡ false
    → contains minus_one32 (xs ++ ys) ≡ false
    → Back pi pi.io_seq_end (xs ++ ys)
    → Back pi' pi'.io_seq_end (xs ++ e ∷ ys)
relinked-Back e [] ys pi pi' small l d c real b =
    let at : pi'.io_seq_end ≡ e = ground (arith, l.end) in
    let from : (pi'.proc_table e).prev ≡ first_or_none ys =
      ground (arith, l.prev e (omega arith)) in
    let chain = subst (λ v. Back pi v ys) (Back-first pi pi.io_seq_end ys b) b in
    (
      at,
      small,
      subst (λ v. Back pi' v ys) (sym from)
          (Back-kept e (first_or_none ys) minus_one32 pi pi' l (first_or_none ys) ys real c chain),
    )
relinked-Back e (x ∷ xs) ys pi pi' small l d c real b =
    let some_last : minus_one32 ≢ last_of x xs =
      last_of-apart minus_one32 x xs (ground (arith, contains-append minus_one32 (x ∷ xs) ys)) in
    let at : pi'.io_seq_end ≡ pi.io_seq_end = ground (arith, l.end) in
    subst (λ v. Back pi' v (x ∷ xs ++ e ∷ ys)) (sym at)
      (Back-linked e ys pi pi' small x xs pi.io_seq_end l d c b)

Descends-same :
    (pi pi' : ProcInfo) (bound : ℕ) (ids : List ℕ)
    → ((j : ℕ) → due pi' j ≡ due pi j)
    → Descends pi bound ids
    → Descends pi' bound ids
Descends-same pi pi' bound [] s d = tt
Descends-same pi pi' bound (i ∷ is) s d = (
  omega (arith, s i, d.0),
  subst (λ b. Descends pi' b is) (sym (s i)) (Descends-same pi pi' (due pi i) is s d.1),
)

link-due : (e curr : ℕ) (pi : ProcInfo) (j : ℕ) → due (link_request e curr pi) j ≡ due pi j
unfolding link_request
link-due e curr pi j = ground arith

-- The new list of requests.
abbrev pub inserted : ProcInfo → ℕ → List ℕ → List ℕ
inserted pi e ids =
    later pi (pi.proc_table e).nsecs_target ids ++ e ∷ earlier pi (pi.proc_table e).nsecs_target ids

pub some_request :
    (pi : ProcInfo) (x : ℕ) (is : List ℕ) → InFlight pi (x ∷ is) → pi.io_seq ≢ minus_one32
some_request pi x is q g =
    last_of-apart minus_one32 x is (Back-real pi pi.io_seq_end (x ∷ is) q.back)
      (sym g ∙ Front-head pi minus_one32 (x ∷ is) q.front)

module _ (e fuel : ℕ) (pi : ProcInfo) (x : ℕ) (is : List ℕ) (q : InFlight pi (x ∷ is))
    (small : e < 2 ^ 31) (new : contains e (x ∷ is) ≡ false)
    (alone : ((pi.proc_table e).prev ≡ minus_one32) × ((pi.proc_table e).next ≡ minus_one32)) where
  abbrev ids : List ℕ
  ids = x ∷ is

  abbrev target : ℕ
  target = (pi.proc_table e).nsecs_target

  -- For a doubly linked chain of at least one request in flight, given from its end to its head,
  -- and an entry below 2^31 that is not in the chain and has no neighbours, with more fuel than
  -- the chain has requests, the insertion of __enqueue_io_req ends. The new request stands before
  -- the longest run of requests from the end on that are due later than it and than now, prev and
  -- next form a doubly linked chain again with io_seq and io_seq_end as its ends, and if the
  -- requests were in the order of the later of now and their times of completion, they are so
  -- again.
  pub insert_request-InFlight :
      length (x ∷ is) < fuel
      → (pi' : ProcInfo) × (insert_request fuel e (pi.proc_table e).nsecs_target pi ≡ ok pi')
        × InFlight pi' (inserted pi e (x ∷ is))
        × ((bound : ℕ)
            → due pi e ≤ bound
            → Descends pi bound (x ∷ is)
            → Descends pi' bound (inserted pi e (x ∷ is)))
  unfolding insert_request
  insert_request-InFlight h =
      let xs = later pi target ids in
      let ys = earlier pi target ids in
      let s : xs ++ ys ≡ ids = split pi target ids in
      let back : Back pi pi.io_seq_end (xs ++ ys) =
        subst (λ l. Back pi pi.io_seq_end l) (sym s) q.back in
      let front : Front pi minus_one32 (xs ++ ys) =
        subst (λ l. Front pi minus_one32 l) (sym s) q.front in
      let distinct : Distinct (xs ++ ys) = subst Distinct (sym s) q.distinct in
      let fresh : contains e (xs ++ ys) ≡ false = subst (λ l. contains e l ≡ false) (sym s) new in
      let real = Back-real pi pi.io_seq_end (xs ++ ys) back in
      let curr = first_or_none ys in
      let pi' = link_request e curr pi in
      let l = linked e pi small alone xs ys front real fresh distinct (some_request pi x is q) in
      let found = find_place-Back fuel pi target pi.io_seq_end ids q.back h in
      let none : (pi.io_seq == minus_one32) ≡ false = ==-false _ _ (some_request pi x is q) in
      (
        pi',
        rw (none, found) refl,
        record {
          back = relinked-Back e xs ys pi pi' small l distinct fresh real back;
          front = Front-linked e ys pi pi' small xs minus_one32 l distinct fresh real front;
          distinct = Distinct-insert e xs ys distinct fresh;
        },
        λ bound le d.
            Descends-same pi pi' bound (inserted pi e ids) (link-due e curr pi)
              (Descends-insert pi e bound ids d le),
      )
