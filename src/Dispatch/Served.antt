-- ===== src/Dispatch/Served.antt =====
-- What a worker's round has to do for the requests in flight, read off the list of them.
use femu_on_virt.Base.{
  ℕ, suc, ◌+◌, ◌*◌, ◌≡◌, Bool, true, false, not, ◌&&◌, ◌||◌, List, [], ◌∷◌, ◌++◌, Option, none,
  some, ok, leb, if◌then◌else◌, update, w64,
}
use femu_on_virt.Dispatch.Types.{ProcTable, CompletionQueue}
use femu_on_virt.Dispatch.Completions.{fill_cq_result}
use femu_on_virt.Dispatch.Prp.{do_perform_io}
use femu_on_virt.Dispatch.Transfer.{Covers, overruns}
use femu_on_virt.Dispatch.Worker.{Transfer, Moved, io_fuel}

-- The entry `p`, copied if `a` and completed if `b`.
abbrev pub flags : ProcTable → Bool → Bool → ProcTable
flags p a b = record p { is_copied = p.is_copied || a; is_completed = p.is_completed || b }

abbrev pub present : Option CompletionQueue → Bool
present none = false
present (some cq) = true

abbrev pub movable : Option Transfer → Bool
movable none = false
movable (some t) = not (overruns t.rw)

-- The request, if it is not copied.
abbrev pub fresh : (ℕ → ProcTable) → ℕ → List ℕ
fresh table i = if (table i).is_copied then [] else i ∷ []

module _ (table : ℕ → ProcTable) (clock : ℕ → ℕ) where
  -- The requests that the round completes: those that are due at their reading of the clock and are
  -- not completed, up to the first one that is neither completed nor due. The first request is
  -- looked at with the `n`-th reading.
  abbrev pub served : ℕ → List ℕ → List ℕ
  served n [] = []
  served n (i ∷ is) =
      if (table i).is_completed
      then served (suc n) is
      else if leb (table i).nsecs_target (clock n)
      then i ∷ served (suc n) is
      else []

  -- The requests that the round copies: the same, and that first one, if they are not copied.
  abbrev pub handled : ℕ → List ℕ → List ℕ
  handled n [] = []
  handled n (i ∷ is) =
      if (table i).is_completed
      then handled (suc n) is
      else if leb (table i).nsecs_target (clock n)
      then fresh table i ++ handled (suc n) is
      else fresh table i

-- A completion of the request `p` in its completion queue.
abbrev pub post_one : ProcTable → (ℕ → Option CompletionQueue) → ℕ → Option CompletionQueue
post_one p cqes = elim (cqes p.cqid) [
  | none ↦ cqes
  | some cq ↦ update cqes p.cqid (some (fill_cq_result p.sqid p.sq_entry p.command_id cq))
]

-- One completion for each of the requests, in their order, and no other.
abbrev pub post :
    (ℕ → ProcTable) → List ℕ → (ℕ → Option CompletionQueue) → ℕ → Option CompletionQueue
post table [] cqes = cqes
post table (i ∷ is) cqes = post table is (post_one (table i) cqes)

module _ (source : ℕ → ℕ → Option Transfer) (table : ℕ → ProcTable) where
  -- The command and the completion queue of a request are there, and its transfer does not need a
  -- list that it has not.
  abbrev pub servable : (ℕ → Option CompletionQueue) → ℕ → Bool
  servable cqes i =
      movable (source (table i).sqid (table i).sq_entry) && present (cqes (table i).cqid)

  -- The copies `m` are those of the command of the request `i`.
  pub record IsMove (i : ℕ) (m : Moved) : Type 0 where
    pub entry : m.entry ≡ i
    pub transfer : Transfer
    pub command : source (table i).sqid (table i).sq_entry ≡ some transfer
    pub direction : m.write ≡ transfer.write
    pub run :
        do_perform_io transfer.rw transfer.prp_list (io_fuel transfer.rw)
        ≡ ok (m.copies, (transfer.rw.length + 1) * 512)
    pub covers : Covers (w64 (transfer.rw.slba * 512)) ((transfer.rw.length + 1) * 512) m.copies

  -- One transfer for each of the requests, in their order.
  abbrev pub AreMoves : List ℕ → List Moved → Type 0
  AreMoves [] [] = Unit
  AreMoves [] (m ∷ ms) = ⊥
  AreMoves (i ∷ is) [] = ⊥
  AreMoves (i ∷ is) (m ∷ ms) = IsMove i m × AreMoves is ms
