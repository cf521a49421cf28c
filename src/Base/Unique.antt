-- ===== src/Base/Unique.antt =====
-- Lists of distinct numbers, their last elements, and the order turned.
use Prim.Native.Nat.{ℕ, zero, suc, ◌+◌, ◌<◌, ◌≤◌}
use mathlib.Core.Path.{◌≡◌, refl, sym, subst}
use mathlib.Core.Logic.{inl, inr}
use mathlib.Core.Bool.{true, false, ◌||◌, ◌&&◌}
use mathlib.Core.List.{List, [], ◌∷◌, ◌++◌}
use native.Mathlib.Omega.{arith}
use femu_on_virt.Base.Test.{◌==◌, ==_iff, leb, ltb, Bool-cases}
use femu_on_virt.Base.Lists.{length, contains}

-- The elements of a list are distinct.
abbrev pub Distinct : List ℕ → Type 0
Distinct [] = Unit
Distinct (x ∷ xs) = (contains x xs ≡ false) × Distinct xs

-- The `k` numbers from `i` on.
abbrev pub range : ℕ → ℕ → List ℕ
range i zero = []
range i (suc k) = i ∷ range (suc i) k

pub contains-range : (j i k : ℕ) → contains j (range i k) ≡ (leb i j && ltb j (i + k))
contains-range j i zero = ground arith
contains-range j i (suc k) = ground (arith, contains-range j (suc i) k)

pub within-range : (j i k : ℕ) → contains j (range i k) ≡ true → (i ≤ j) × (j < i + k)
within-range j i k c = ground (arith, contains-range j i k)

pub range-Distinct : (i k : ℕ) → Distinct (range i k)
range-Distinct i zero = tt
range-Distinct i (suc k) = (ground (arith, contains-range i (suc i) k), range-Distinct (suc i) k)

abbrev pub last_of : ℕ → List ℕ → ℕ
last_of n [] = n
last_of n (x ∷ xs) = last_of x xs

pub contains-append :
    (a : ℕ) (xs ys : List ℕ) → contains a (xs ++ ys) ≡ (contains a xs || contains a ys)
contains-append a [] ys = refl
contains-append a (x ∷ xs) ys = ground (arith, contains-append a xs ys)

pub last_of-in : (x : ℕ) (xs : List ℕ) → contains (last_of x xs) (x ∷ xs) ≡ true
last_of-in x [] = ground arith
last_of-in x (y ∷ xs) = ground (arith, last_of-in y xs)

pub Distinct-apart :
    (a : ℕ) (xs ys : List ℕ) → Distinct (xs ++ ys) → contains a xs ≡ true → contains a ys ≡ false
Distinct-apart a [] ys d c = cc c
Distinct-apart a (x ∷ xs) ys d c = elim (Bool-cases (x == a)) [
  | inl e ↦ ground (arith, d.0, contains-append x xs ys)
  | inr e ↦ Distinct-apart a xs ys d.1 (ground arith)
]

pub Distinct-parts : (xs ys : List ℕ) → Distinct (xs ++ ys) → Distinct xs × Distinct ys
Distinct-parts [] ys d = (tt, d)
Distinct-parts (x ∷ xs) ys d =
    let (left, right) = Distinct-parts xs ys d.1 in
    ((ground (arith, d.0, contains-append x xs ys), left), right)

pub not_last :
    (x y : ℕ) (xs ys : List ℕ) → contains x (y ∷ xs ++ ys) ≡ false → (x == last_of y xs) ≡ false
not_last x y xs ys c = elim (Bool-cases (x == last_of y xs)) [
  | inl f ↦
      let here : contains x (y ∷ xs) ≡ true =
        subst (λ a. contains a (y ∷ xs) ≡ true) (sym ((==_iff _ _).0 f)) (last_of-in y xs) in
      absurd (cc (here, c, contains-append x (y ∷ xs) ys))
  | inr f ↦ f
]

contains-insert :
    (a e : ℕ) (xs ys : List ℕ)
    → contains a (xs ++ ys) ≡ false
    → (e == a) ≡ false
    → contains a (xs ++ e ∷ ys) ≡ false
contains-insert a e [] ys c h = ground arith
contains-insert a e (x ∷ xs) ys c h = ground (arith, contains-insert a e xs ys)

pub Distinct-insert :
    (e : ℕ) (xs ys : List ℕ)
    → Distinct (xs ++ ys)
    → contains e (xs ++ ys) ≡ false
    → Distinct (xs ++ e ∷ ys)
Distinct-insert e [] ys d c = (c, d)
Distinct-insert e (x ∷ xs) ys d c =
    (contains-insert x e xs ys d.0 (ground arith), Distinct-insert e xs ys d.1 (ground arith))

pub last_of-append : (n x : ℕ) (xs ys : List ℕ) → last_of n (xs ++ x ∷ ys) ≡ last_of x ys
last_of-append n x [] ys = refl
last_of-append n x (y ∷ xs) ys = last_of-append y x xs ys

-- Two lists of distinct elements without a common one.
pub Distinct-joined :
    (xs ys : List ℕ)
    → Distinct xs
    → Distinct ys
    → ((j : ℕ) → contains j xs ≡ true → contains j ys ≡ false)
    → Distinct (xs ++ ys)
Distinct-joined [] ys d e apart = e
Distinct-joined (x ∷ xs) ys d e apart = (
  ground (arith, contains-append x xs ys, d.0, apart x (ground arith)),
  Distinct-joined xs ys d.1 e (λ j c. apart j (ground (arith, c))),
)

-- The elements of a list from the last to the first, before those of `acc`.
abbrev pub rev_onto : List ℕ → List ℕ → List ℕ
rev_onto acc [] = acc
rev_onto acc (x ∷ xs) = rev_onto (x ∷ acc) xs

pub contains-rev_onto :
    (a : ℕ) (acc xs : List ℕ) → contains a (rev_onto acc xs) ≡ (contains a xs || contains a acc)
contains-rev_onto a acc [] = refl
contains-rev_onto a acc (x ∷ xs) = ground (arith, contains-rev_onto a (x ∷ acc) xs)

pub length-rev_onto : (acc xs : List ℕ) → length (rev_onto acc xs) ≡ length xs + length acc
length-rev_onto acc [] = omega arith
length-rev_onto acc (x ∷ xs) = omega (arith, length-rev_onto (x ∷ acc) xs)

pub Distinct-rev_onto : (acc xs : List ℕ) → Distinct (xs ++ acc) → Distinct (rev_onto acc xs)
Distinct-rev_onto acc [] d = d
Distinct-rev_onto acc (x ∷ xs) d = Distinct-rev_onto (x ∷ acc) xs (Distinct-insert x xs acc d.1 d.0)

pub last_of-rev_onto :
    (n x : ℕ) (acc xs : List ℕ) → last_of n (rev_onto (x ∷ acc) xs) ≡ last_of x acc
last_of-rev_onto n x acc [] = refl
last_of-rev_onto n x acc (y ∷ xs) = last_of-rev_onto n y (x ∷ acc) xs
