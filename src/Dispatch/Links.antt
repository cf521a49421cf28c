-- ===== src/Dispatch/Links.antt =====
-- Entries of a table of requests as a chain along `next`, singly or doubly linked.
use femu_on_virt.Base.{
  ℕ, ◌<◌, ◌^◌, ◌≡◌, sym, ◌∙◌, subst, true, false, List, [], ◌∷◌, ◌++◌, contains, arith, ◌==◌,
  minus_one32, last_of, not_last, Distinct,
}
use mathlib.Core.List.{append-nil}
use femu_on_virt.Dispatch.Types.{ProcInfo}

-- From `c` along `next`: exactly the entries `ids`.
abbrev pub Forward : ProcInfo → ℕ → List ℕ → Type 0
Forward pi c [] = c ≡ minus_one32
Forward pi c (i ∷ is) = (c ≡ i) × (i < 2 ^ 31) × Forward pi (pi.proc_table i).next is

-- The same with the entry before each in `prev`, `p` for the first.
abbrev pub Linked : ProcInfo → ℕ → ℕ → List ℕ → Type 0
Linked pi p c [] = c ≡ minus_one32
Linked pi p c (i ∷ is) =
    (c ≡ i) × (i < 2 ^ 31) × ((pi.proc_table i).prev ≡ p) × Linked pi i (pi.proc_table i).next is

pub Linked-Forward : (pi : ProcInfo) (p c : ℕ) (ids : List ℕ) → Linked pi p c ids → Forward pi c ids
Linked-Forward pi p c [] l = l
Linked-Forward pi p c (i ∷ is) l = (l.0, l.1, Linked-Forward pi i (pi.proc_table i).next is l.3)

-- A chain that is led elsewhere at its last entry.
module _ (pi pi' : ProcInfo) (n : ℕ) (rest tail : List ℕ) (t : Forward pi' n tail) where
  pub rejoin :
      (x : ℕ) (xs : List ℕ) (c : ℕ)
      → Forward pi c (x ∷ xs ++ rest)
      → Distinct (x ∷ xs)
      → (pi'.proc_table (last_of x xs)).next ≡ n
      → ((j : ℕ)
          → contains j (x ∷ xs) ≡ true
          → (j == last_of x xs) ≡ false
          → (pi'.proc_table j).next ≡ (pi.proc_table j).next)
      → Forward pi' c (x ∷ xs ++ tail)
  rejoin x [] c f d e agree = (f.0, f.1, subst (λ v. Forward pi' v tail) (sym e) t)
  rejoin x (y ∷ xs) c f d e agree =
      let apart =
        not_last x y xs [] (subst (λ l. contains x (y ∷ l) ≡ false) (sym (append-nil xs)) d.0) in
      let same = agree x (ground arith) apart in
      (
        f.0,
        f.1,
        subst (λ v. Forward pi' v (y ∷ xs ++ tail)) (sym same)
            (rejoin y xs (pi.proc_table x).next f.2 d.1 e
              (λ j there ne. agree j (ground (arith, there)) ne)),
      )

pub Linked-rest :
    (pi : ProcInfo) (p c x : ℕ) (xs rest : List ℕ)
    → Linked pi p c (x ∷ xs ++ rest)
    → Linked pi (last_of x xs) (pi.proc_table (last_of x xs)).next rest
Linked-rest pi p c x [] rest l = l.3
Linked-rest pi p c x (y ∷ xs) rest l = Linked-rest pi x (pi.proc_table x).next y xs rest l.3

pub Forward-same :
    (pi pi' : ProcInfo) (c : ℕ) (ids : List ℕ)
    → ((j : ℕ) → contains j ids ≡ true → (pi'.proc_table j).next ≡ (pi.proc_table j).next)
    → Forward pi c ids
    → Forward pi' c ids
Forward-same pi pi' c [] agree f = f
Forward-same pi pi' c (i ∷ is) agree f = (
  f.0,
  f.1,
  subst (λ v. Forward pi' v is) (sym (agree i (ground arith)))
      (Forward-same pi pi' (pi.proc_table i).next is (λ j there. agree j (ground (arith, there)))
        f.2),
)

pub Linked-same :
    (pi pi' : ProcInfo) (p c : ℕ) (ids : List ℕ)
    → ((j : ℕ)
        → contains j ids ≡ true
        → ((pi'.proc_table j).next ≡ (pi.proc_table j).next)
          × ((pi'.proc_table j).prev ≡ (pi.proc_table j).prev))
    → Linked pi p c ids
    → Linked pi' p c ids
Linked-same pi pi' p c [] agree l = l
Linked-same pi pi' p c (i ∷ is) agree l =
    let (next, prev) = agree i (ground arith) in
    (
      l.0,
      l.1,
      prev ∙ l.2,
      subst (λ v. Linked pi' i v is) (sym next)
          (Linked-same pi pi' i (pi.proc_table i).next is
            (λ j there. agree j (ground (arith, there))) l.3),
    )

pub Linked-last :
    (pi : ProcInfo) (p c x : ℕ) (xs rest : List ℕ)
    → Linked pi p c (x ∷ xs ++ rest)
    → last_of x xs < 2 ^ 31
Linked-last pi p c x [] rest l = l.1
Linked-last pi p c x (y ∷ xs) rest l = Linked-last pi x (pi.proc_table x).next y xs rest l.3
