-- ===== src/Dispatch/Chain.antt =====
-- The list of requests in flight as a doubly linked chain, from its end to its head, and what linking
-- a request into it does.
use femu_on_virt.Base.{
  ℕ, zero, suc, ◌<◌, ◌^◌, ◌≡◌, ◌≢◌, refl, sym, ◌∙◌, subst, Bool, false, ◌||◌, Bool-cases, inl, inr,
  List, [], ◌∷◌, ◌++◌, length, contains, ok, arith, leb, ◌==◌, if◌then◌else◌, minus_one32, Distinct,
  not_last, last_of, contains-append,
}
use femu_on_virt.Dispatch.Types.{ProcInfo}
use femu_on_virt.Dispatch.Table.{find_place}

-- From `c` along `prev`: exactly the requests `ids`.
abbrev pub Back : ProcInfo → ℕ → List ℕ → Type 0
Back pi c [] = c ≡ minus_one32
Back pi c (i ∷ is) = (c ≡ i) × (i < 2 ^ 31) × Back pi (pi.proc_table i).prev is

-- The request at which the search of __enqueue_io_req stops.
abbrev pub stops : ProcInfo → ℕ → ℕ → Bool
stops pi t i =
    leb (pi.proc_table i).nsecs_target pi.proc_io_nsecs || leb (pi.proc_table i).nsecs_target t

-- The requests behind the place of one with the target `t`, and those before it.
abbrev pub later : ProcInfo → ℕ → List ℕ → List ℕ
later pi t [] = []
later pi t (i ∷ is) = if stops pi t i then [] else i ∷ later pi t is

abbrev pub earlier : ProcInfo → ℕ → List ℕ → List ℕ
earlier pi t [] = []
earlier pi t (i ∷ is) = if stops pi t i then i ∷ is else earlier pi t is

abbrev pub first_or_none : List ℕ → ℕ
first_or_none [] = minus_one32
first_or_none (i ∷ is) = i

-- The search finds the last request that is not behind the place.
pub find_place-Back :
    (fuel : ℕ) (pi : ProcInfo) (t c : ℕ) (ids : List ℕ)
    → Back pi c ids
    → length ids < fuel
    → find_place fuel pi t c ≡ ok (first_or_none (earlier pi t ids))
unfolding find_place
find_place-Back zero pi t c ids b h = absurd (omega arith)
find_place-Back (suc fuel) pi t c [] b h = ground arith
find_place-Back (suc fuel) pi t c (i ∷ is) b h =
    let rest = find_place-Back fuel pi t (pi.proc_table i).prev is b.2 (omega arith) in
    let real : (i == minus_one32) ≡ false = ground (arith, b.1) in
    subst (λ x. find_place (suc fuel) pi t x ≡ ok (first_or_none (earlier pi t (i ∷ is)))) (sym b.0)
      (elim (Bool-cases (stops pi t i)) [ inl e ↦ rw (real, e) refl | inr e ↦ rw (real, e) rest ])

-- Along `next`: the request before the chain `ids` has `n` behind it, and the head is `io_seq`.
abbrev pub Front : ProcInfo → ℕ → List ℕ → Type 0
Front pi n [] = pi.io_seq ≡ n
Front pi n (i ∷ is) = ((pi.proc_table i).next ≡ n) × Front pi i is

-- The request `e` is linked between `before` (-1 at the head) and `after` (-1 at the end).
pub record IsLinked (e before after : ℕ) (pi pi' : ProcInfo) : Type 0 where
  pub prev :
      (j : ℕ)
      → j ≢ minus_one32
      → (pi'.proc_table j).prev
        ≡ (if j == after then e else if j == e then before else (pi.proc_table j).prev)
  pub next :
      (j : ℕ)
      → j ≢ minus_one32
      → (pi'.proc_table j).next
        ≡ (if j == before then e else if j == e then after else (pi.proc_table j).next)
  pub head : pi'.io_seq ≡ (if before == minus_one32 then e else pi.io_seq)
  pub end : pi'.io_seq_end ≡ (if after == minus_one32 then e else pi.io_seq_end)

module _ (e before after : ℕ) (pi pi' : ProcInfo) (l : IsLinked e before after pi pi') where
  pub Back-kept :
      (c : ℕ) (ids : List ℕ)
      → contains after ids ≡ false
      → contains e ids ≡ false
      → Back pi c ids
      → Back pi' c ids
  Back-kept c [] x y b = b
  Back-kept c (i ∷ is) x y b =
      let same : (pi'.proc_table i).prev ≡ (pi.proc_table i).prev =
        ground (arith, b.1, l.prev i (omega arith)) in
      (
        b.0,
        b.1,
        subst (λ v. Back pi' v is) (sym same)
            (Back-kept (pi.proc_table i).prev is (ground arith) (ground arith) b.2),
      )

  Front-kept :
      (n : ℕ) (ids : List ℕ)
      → contains minus_one32 ids ≡ false
      → contains before ids ≡ false
      → contains e ids ≡ false
      → before ≢ minus_one32
      → Front pi n ids
      → Front pi' n ids
  Front-kept n [] r x y ne f = ground (arith, l.head)
  Front-kept n (i ∷ is) r x y ne f =
      let same : (pi'.proc_table i).next ≡ (pi.proc_table i).next =
        ground (arith, l.next i (ground arith)) in
      (same ∙ f.0, Front-kept i is (ground arith) (ground arith) (ground arith) ne f.1)

pub Back-first : (pi : ProcInfo) (c : ℕ) (ids : List ℕ) → Back pi c ids → c ≡ first_or_none ids
Back-first pi c [] b = b
Back-first pi c (i ∷ is) b = b.0

pub Back-real :
    (pi : ProcInfo) (c : ℕ) (ids : List ℕ) → Back pi c ids → contains minus_one32 ids ≡ false
Back-real pi c [] b = refl
Back-real pi c (i ∷ is) b = ground (arith, b.1, Back-real pi (pi.proc_table i).prev is b.2)

not_first :
    (x : ℕ) (xs ys : List ℕ)
    → contains x (xs ++ ys) ≡ false
    → x ≢ minus_one32
    → (x == first_or_none ys) ≡ false
not_first x xs [] c ne = ground arith
not_first x xs (y ∷ ys) c ne = ground (arith, contains-append x xs (y ∷ ys))

pub Front-base :
    (e : ℕ) (ys : List ℕ) (n : ℕ) (pi pi' : ProcInfo)
    → IsLinked e (first_or_none ys) n pi pi'
    → contains e ys ≡ false
    → contains minus_one32 ys ≡ false
    → Distinct ys
    → e < 2 ^ 31
    → Front pi n ys
    → Front pi' n (e ∷ ys)
Front-base e [] n pi pi' l ne real d small f =
    (ground (arith, l.next e (omega arith)), ground (arith, l.head))
Front-base e (y ∷ ys) n pi pi' l ne real d small f = (
  ground (arith, l.next e (omega arith)),
  (
    ground (arith, l.next y (ground arith)),
    Front-kept e y n pi pi' l y ys (ground arith) d.0 (ground arith) (ground arith) f.1,
  ),
)

module _ (e : ℕ) (ys : List ℕ) (pi pi' : ProcInfo) (small : e < 2 ^ 31) where
  pub Back-linked :
      (x : ℕ) (xs : List ℕ) (c : ℕ)
      → IsLinked e (first_or_none ys) (last_of x xs) pi pi'
      → Distinct (x ∷ xs ++ ys)
      → contains e (x ∷ xs ++ ys) ≡ false
      → Back pi c (x ∷ xs ++ ys)
      → Back pi' c (x ∷ xs ++ e ∷ ys)
  Back-linked x [] c l d n b =
      let at : (pi'.proc_table x).prev ≡ e = ground (arith, b.1, l.prev x (omega arith)) in
      let from : (pi'.proc_table e).prev ≡ first_or_none ys =
        ground (arith, l.prev e (omega arith)) in
      let chain = subst (λ v. Back pi v ys) (Back-first pi (pi.proc_table x).prev ys b.2) b.2 in
      (
        b.0,
        b.1,
        (
          at,
          small,
          subst (λ v. Back pi' v ys) (sym from)
              (Back-kept e (first_or_none ys) x pi pi' l (first_or_none ys) ys d.0 (ground arith)
                chain),
        ),
      )
  Back-linked x (y ∷ xs) c l d n b =
      let other : (x == last_of y xs) ≡ false = not_last x y xs ys d.0 in
      let same : (pi'.proc_table x).prev ≡ (pi.proc_table x).prev =
        ground (arith, b.1, l.prev x (omega arith)) in
      (
        b.0,
        b.1,
        subst (λ v. Back pi' v (y ∷ xs ++ e ∷ ys)) (sym same)
            (Back-linked y xs (pi.proc_table x).prev l d.1 (ground arith) b.2),
      )

  pub Front-linked :
      (xs : List ℕ) (n : ℕ)
      → IsLinked e (first_or_none ys) (last_of n xs) pi pi'
      → Distinct (xs ++ ys)
      → contains e (xs ++ ys) ≡ false
      → contains minus_one32 (xs ++ ys) ≡ false
      → Front pi n (xs ++ ys)
      → Front pi' n (xs ++ e ∷ ys)
  Front-linked [] n l d ne real f = Front-base e ys n pi pi' l ne real d small f
  Front-linked (x ∷ xs) n l d ne real f =
      let other : (x == first_or_none ys) ≡ false = not_first x xs ys d.0 (ground arith) in
      let same : (pi'.proc_table x).next ≡ (pi.proc_table x).next =
        ground (arith, l.next x (ground arith)) in
      (same ∙ f.0, Front-linked xs x l d.1 (ground arith) (ground arith) f.1)
