-- ===== src/Ftl/Victims.antt =====
-- The victim lines' priority queue. pqueue.c is a third-party library (libpqueue): its calls are
-- an instance argument, and its documented behaviour is the record of laws `IsPqueue`.
-- The callbacks that ftl.c hands to it are translated here.
use femu_on_virt.Base.{
  ℕ, ◌+◌, ◌<◌, ◌≡◌, Bool, Option, none, some, ltb, ◌==◌, if◌then◌else◌, w32, sext64,
}
use femu_on_virt.Ftl.Types.{Line}

unfoldable pub victim_line_cmp_pri : ℕ → ℕ → Bool
victim_line_cmp_pri next curr = ltb curr next

unfoldable pub victim_line_get_pri : Line → ℕ
victim_line_get_pri a = sext64 a.vpc

unfoldable pub victim_line_set_pri : Line → ℕ → Line
victim_line_set_pri a pri = record a { vpc = w32 pri }

unfoldable pub victim_line_get_pos : Line → ℕ
victim_line_get_pos a = a.pos

unfoldable pub victim_line_set_pos : Line → ℕ → Line
victim_line_set_pos a pos = record a { pos = pos }

-- The calls, and `copies q i`, how often line `i` is in the queue. The queue writes priorities and positions of lines through the callbacks.
pub record Pqueue (Q : Type 0) : Type 0 where
  pub init : ℕ → Q
  pub insert : Q → (ℕ → Line) → ℕ → Q × (ℕ → Line)
  pub change_priority : Q → (ℕ → Line) → ℕ → ℕ → Q × (ℕ → Line)
  pub pop : Q → (ℕ → Line) → Q × (ℕ → Line)
  pub peek : Q → Option ℕ
  pub copies : Q → ℕ → ℕ

-- What a call may do to the lines: their positions change, and nothing else.
pub record OnlyPos (ls ls' : ℕ → Line) : Type 0 where
  pub id : (j : ℕ) → (ls' j).id ≡ (ls j).id
  pub ipc : (j : ℕ) → (ls' j).ipc ≡ (ls j).ipc
  pub vpc : (j : ℕ) → (ls' j).vpc ≡ (ls j).vpc

-- The positions after a call that left the queue `q`: a line in it has one, any other line keeps
-- what it had.
pub record Placed {Q : Type 0} (pq : Pqueue Q) (q : Q) (ls ls' : ℕ → Line) : Type 0 where
  pub inside : (j : ℕ) → 0 < pq.copies q j → 0 < (ls' j).pos
  pub outside : (j : ℕ) → pq.copies q j ≡ 0 → (ls' j).pos ≡ (ls j).pos

-- The behaviour that pqueue.h documents: insert adds an item, change_priority moves an entry to
-- another priority, peek shows an entry or NULL, pop removes the entry that peek shows.
pub record IsPqueue {Q : Type 0} (pq : Pqueue Q) : Type 0 where
  pub copies-init : (n j : ℕ) → pq.copies (pq.init n) j ≡ 0
  pub copies-insert :
      (q : Q) (ls : ℕ → Line) (i j : ℕ)
      → pq.copies (pq.insert q ls i).0 j ≡ pq.copies q j + (if i == j then 1 else 0)
  pub insert_only : (q : Q) (ls : ℕ → Line) (i : ℕ) → OnlyPos ls (pq.insert q ls i).1
  pub insert_placed :
      (q : Q) (ls : ℕ → Line) (i : ℕ) → Placed pq (pq.insert q ls i).0 ls (pq.insert q ls i).1
  pub copies-change :
      (q : Q) (ls : ℕ → Line) (pri i j : ℕ)
      → pq.copies (pq.change_priority q ls pri i).0 j ≡ pq.copies q j
  pub change_id :
      (q : Q) (ls : ℕ → Line) (pri i j : ℕ) → ((pq.change_priority q ls pri i).1 j).id ≡ (ls j).id
  pub change_ipc :
      (q : Q) (ls : ℕ → Line) (pri i j : ℕ) → ((pq.change_priority q ls pri i).1 j).ipc ≡ (ls j).ipc
  pub change_vpc :
      (q : Q) (ls : ℕ → Line) (pri i j : ℕ)
      → 0 < pq.copies q i
      → ((pq.change_priority q ls pri i).1 j).vpc
        ≡ (if i == j then (victim_line_set_pri (ls i) pri).vpc else (ls j).vpc)
  pub change_placed :
      (q : Q) (ls : ℕ → Line) (pri i : ℕ)
      → Placed pq (pq.change_priority q ls pri i).0 ls (pq.change_priority q ls pri i).1
  pub copies-peek : (q : Q) (i : ℕ) → pq.peek q ≡ some i → 0 < pq.copies q i
  pub peek-none : (q : Q) (j : ℕ) → pq.peek q ≡ none → pq.copies q j ≡ 0
  pub copies-pop :
      (q : Q) (ls : ℕ → Line) (i j : ℕ)
      → pq.peek q ≡ some i
      → pq.copies (pq.pop q ls).0 j + (if i == j then 1 else 0) ≡ pq.copies q j
  pub pop_only : (q : Q) (ls : ℕ → Line) → OnlyPos ls (pq.pop q ls).1
  pub pop_placed : (q : Q) (ls : ℕ → Line) → Placed pq (pq.pop q ls).0 ls (pq.pop q ls).1
