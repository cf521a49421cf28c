-- ===== src/Dispatch/Release.antt =====
-- nvmev_proc_io_cq: the completions that the host has read leave the counters of their submission
-- queues.
use femu_on_virt.Base.{
  ℕ, ◌-◌, List, [], ◌∷◌, ◌++◌, range, Option, none, some, Run, ok, fault, leb, ◌==◌, if◌then◌else◌,
  update, dec32,
}
use femu_on_virt.Dispatch.Types.{CompletionQueue}

-- The entries from the old doorbell up to the new one, around the end of the ring.
abbrev pub read_entries : ℕ → ℕ → ℕ → List ℕ
read_entries size old_db new_db =
    if leb old_db new_db
    then range old_db (new_db - old_db)
    else range old_db (size - old_db) ++ range 0 new_db

-- A counter less the entries of `is` that are completions of the queue `s`; it wraps at 0.
abbrev pub less : CompletionQueue → ℕ → List ℕ → Option ℕ → Option ℕ
less cq s [] o = o
less cq s (i ∷ is) none = none
less cq s (i ∷ is) (some n) =
    if (cq.cq i).sq_id == s then less cq s is (some (dec32 n)) else less cq s is (some n)

module _ (cq : CompletionQueue) where
  -- The counters behind the entries `is`.
  abbrev drain : List ℕ → (ℕ → Option ℕ) → Run (ℕ → Option ℕ)
  drain [] c = ok c
  drain (i ∷ is) c = elim (c (cq.cq i).sq_id) [
    | none ↦ fault
    | some n ↦ drain is (update c (cq.cq i).sq_id (some (dec32 n)))
  ]
