-- ===== src/Dispatch/Lists.antt =====
-- The two lists of a table of requests: NVMEV_IO_PROC_INIT makes every entry free.
use femu_on_virt.Base.{
  ℕ, zero, suc, ◌+◌, ◌<◌, ◌≡◌, ◌⊎◌, inl, refl, subst, sym, true, List, [], ◌∷◌, ◌++◌, length,
  contains, arith, minus_one32, last_of, Distinct, range, range-Distinct, within-range, ap, ◌∙◌,
}
use mathlib.Core.List.{append-nil}
use femu_on_virt.Dispatch.Types.{ProcInfo}
use femu_on_virt.Dispatch.Table.{nr_max_parallel_io, init_proc_info}
use femu_on_virt.Dispatch.Links.{Forward, Linked}

-- A table whose free list holds the entries `frees`, and whose requests in flight are `ids`.
pub record HasLists (pi : ProcInfo) (f : ℕ) (fs ids : List ℕ) : Type 0 where
  pub free : Forward pi pi.free_seq (f ∷ fs)
  pub free_end : pi.free_seq_end ≡ last_of f fs
  pub flight : Linked pi minus_one32 pi.io_seq ids
  pub distinct : Distinct (f ∷ fs ++ ids)
  pub flight_end : (ids ≡ []) ⊎ (pi.io_seq_end ≡ last_of minus_one32 ids)
  pub inside : (j : ℕ) → contains j (f ∷ fs ++ ids) ≡ true → j < nr_max_parallel_io
  pub count : length (f ∷ fs ++ ids) ≡ nr_max_parallel_io

-- The entries from `i` to the last one are linked.
free_range : (k i : ℕ) → i + suc k ≡ nr_max_parallel_io → Forward init_proc_info i (range i (suc k))
unfolding init_proc_info
free_range zero i h = (refl, omega arith, ground arith)
free_range (suc k) i h =
    let next : (init_proc_info.proc_table i).next ≡ suc i = ground arith in
    (
      refl,
      omega arith,
      subst (λ v. Forward init_proc_info v (range (suc i) (suc k))) (sym next)
          (free_range k (suc i) (omega arith)),
    )

last_of-range : (k i : ℕ) → last_of i (range (suc i) k) ≡ i + k
last_of-range zero i = omega arith
last_of-range (suc k) i = omega (arith, last_of-range k (suc i))

length-range : (k i : ℕ) → length (range i k) ≡ k
length-range zero i = refl
length-range (suc k) i = omega (arith, length-range k (suc i))

pub init-HasLists : (k : ℕ) → suc k ≡ nr_max_parallel_io → HasLists init_proc_info 0 (range 1 k) []
unfolding init_proc_info
init-HasLists k h =
    let none = append-nil (0 ∷ range 1 k) in
    record {
      free = free_range k 0 (omega (arith, h));
      free_end = omega (arith, h, last_of-range k 0);
      flight = refl;
      distinct = subst Distinct (sym none) (range-Distinct 0 (suc k));
      flight_end = inl refl;
      inside = λ j c.
          let there = subst (λ l. contains j l ≡ true) none c in
          omega (arith, h, within-range j 0 (suc k) there);
      count = ap length none ∙ omega (arith, length-range k 1, h);
    }
