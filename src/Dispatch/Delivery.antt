-- ===== src/Dispatch/Delivery.antt =====
-- A completion queue of io.c and the host that reads it: __fill_cq_result and the host's reads in any
-- order that leaves the queue room.
use femu_on_virt.Base.{
  ℕ, ◌+◌, ◌%◌, ◌^◌, ◌<◌, ◌≡◌, ◌↔◌, refl, sym, ◌∙◌, ap, subst, none, some, List, [], ◌∷◌, ◌++◌,
  length, length-append, arith,
}
use mathlib.Core.Option.{some-injective}
use mathlib.Core.List.{append-nil, append_assoc}
use femu_on_virt.Dispatch.Types.{CompletionQueue}
use femu_on_virt.Dispatch.Completions.{completion_status, fill_cq_result}
use femu_on_virt.Host.Reader.{Ring, Reader, read, Holds, Pushed}
use femu_on_virt.Host.Fifo.{read_empty, read_first, push-Holds}

abbrev pub ring_of : CompletionQueue → Ring
ring_of cq = record { size = cq.queue_size; head = cq.cq_head; phase = cq.phase; entries = cq.cq }

fill-Pushed :
    (sqid sq_entry command_id : ℕ) (cq : CompletionQueue)
    → cq.queue_size < 2 ^ 31
    → cq.cq_head < cq.queue_size
    → cq.phase < 2
    → Pushed
        (command_id % 2 ^ 16)
        (ring_of cq)
        (ring_of (fill_cq_result sqid sq_entry command_id cq))
unfolding fill_cq_result completion_status
fill-Pushed sqid sq_entry command_id cq small at bit = record {
  size = refl;
  head = ground (arith, small, at);
  phase = ground (arith, small, at, bit);
  command = ground arith;
  tag = ground (arith, bit);
  other = λ j ne. ground (arith, ne);
}

-- The queue, the host, and the ids of the commands that were completed and that the host has read.
pub record Link : Type 0 where
  pub cq : CompletionQueue
  pub reader : Reader
  pub sent : List ℕ
  pub received : List ℕ

-- A completion needs room: the host has no more commands open than the queue has entries.
pub data Step : Link → Link → Type 0 where
  completes :
      (l : Link) (sqid sq_entry command_id : ℕ)
      → length l.sent < length l.received + l.cq.queue_size
      → Step l (record l {
        cq = fill_cq_result sqid sq_entry command_id l.cq;
        sent = l.sent ++ command_id % 2 ^ 16 ∷ [];
      })
  reads :
      (l : Link) (id : ℕ) (r : Reader)
      → read (ring_of l.cq) l.reader ≡ some (id, r)
      → Step l (record l { reader = r; received = l.received ++ id ∷ [] })

pub data Reach (l : Link) : Link → Type 0 where
  start : Reach l l
  extend : {m n : Link} → Reach l m → Step m n → Reach l n

-- The completions that are not read are those in the ring, in their order.
pub record Delivers (l : Link) : Type 0 where
  pub pending : List ℕ
  pub order : l.sent ≡ l.received ++ pending
  pub ring : Holds pending (ring_of l.cq) l.reader
  pub small : l.cq.queue_size < 2 ^ 31

head_lt : (l : Link) (h : Delivers l) → (l.cq.cq_head < l.cq.queue_size) × (l.cq.phase < 2)
head_lt l h = ground (arith, h.ring.head, h.ring.phase, h.ring.at, h.ring.expected, h.ring.few)

complete-Delivers :
    (l : Link) (sqid sq_entry command_id : ℕ)
    → length l.sent < length l.received + l.cq.queue_size
    → Delivers l
    → Delivers (record l {
      cq = fill_cq_result sqid sq_entry command_id l.cq;
      sent = l.sent ++ command_id % 2 ^ 16 ∷ [];
    })
unfolding fill_cq_result
complete-Delivers l sqid sq_entry command_id room h =
    let id = command_id % 2 ^ 16 in
    let open_count : length l.sent ≡ length l.received + length h.pending =
      ap length h.order ∙ length-append l.received h.pending in
    let p = fill-Pushed sqid sq_entry command_id l.cq h.small (head_lt l h).0 (head_lt l h).1 in
    record {
      pending = h.pending ++ id ∷ [];
      order = ap (λ xs. xs ++ id ∷ []) h.order ∙ append_assoc l.received h.pending (id ∷ []);
      ring = push-Holds id h.pending _ _ l.reader h.ring (omega (arith, open_count, room)) p;
      small = h.small;
    }

-- What the host reads is the oldest completion that it has not read.
read-Delivers :
    (l : Link) (pending : List ℕ) (id : ℕ) (r : Reader)
    → l.sent ≡ l.received ++ pending
    → Holds pending (ring_of l.cq) l.reader
    → l.cq.queue_size < 2 ^ 31
    → read (ring_of l.cq) l.reader ≡ some (id, r)
    → Delivers (record l { reader = r; received = l.received ++ id ∷ [] })
read-Delivers l [] id r order ring small e = cc (e, read_empty (ring_of l.cq) l.reader ring)
read-Delivers l (x ∷ pending) id r order ring small e =
    let first = read_first x pending (ring_of l.cq) l.reader ring in
    let same = some-injective _ _ (sym first.0 ∙ e) in
    record {
      pending = pending;
      order =
          order
          ∙ sym (append_assoc l.received (x ∷ []) pending)
          ∙ ap (λ y. (l.received ++ y ∷ []) ++ pending) (ap (λ (p : ℕ × Reader). p.0) same);
      ring = subst (Holds pending (ring_of l.cq)) (ap (λ (p : ℕ × Reader). p.1) same) first.1;
      small = small;
    }

Step-Delivers : {l m : Link} → Step l m → Delivers l → Delivers m
Step-Delivers (completes l sqid sq_entry command_id room) h =
    complete-Delivers l sqid sq_entry command_id room h
Step-Delivers (reads l id r e) h = read-Delivers l h.pending id r h.order h.ring h.small e

run-Delivers : {l m : Link} → Delivers l → Reach l m → Delivers m
run-Delivers h start = h
run-Delivers h (extend r s) = Step-Delivers s (run-Delivers h r)

-- A host that finds nothing has read all.
read_all :
    (l : Link) (pending : List ℕ)
    → l.sent ≡ l.received ++ pending
    → Holds pending (ring_of l.cq) l.reader
    → read (ring_of l.cq) l.reader ≡ none
    → l.received ≡ l.sent
read_all l [] order ring e = sym (order ∙ append-nil l.received)
read_all l (x ∷ pending) order ring e =
    cc (e, (read_first x pending (ring_of l.cq) l.reader ring).0)

-- A host that has read all finds nothing.
read_none :
    (l : Link) (pending : List ℕ)
    → l.sent ≡ l.received ++ pending
    → Holds pending (ring_of l.cq) l.reader
    → l.received ≡ l.sent
    → read (ring_of l.cq) l.reader ≡ none
read_none l [] order ring e = read_empty (ring_of l.cq) l.reader ring
read_none l (x ∷ pending) order ring e =
    absurd (omega (arith, ap length e, ap length order, length-append l.received (x ∷ pending)))

-- Whatever the order in which __fill_cq_result completes commands and the host reads the ring,
-- while the host has no more commands open than the ring has entries: what the host has read is
-- what was completed, in the same order and each completion once, less those that the ring still
-- holds; and the host finds nothing to read if and only if it has read all of them.
pub Reach-Delivers :
    (l m : Link)
    → Delivers l
    → Reach l m
    → Delivers m × ((read (ring_of m.cq) m.reader ≡ none) ↔ (m.received ≡ m.sent))
Reach-Delivers l m h r =
    let d = run-Delivers h r in
    (d, (λ e. read_all m d.pending d.order d.ring e, λ e. read_none m d.pending d.order d.ring e))
