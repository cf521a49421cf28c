-- ===== src/Ftl/Sample.antt =====
-- A concrete queue that meets the laws, for the witnesses: lines with their priorities, least first.
use femu_on_virt.Base.{
  ℕ, ◌+◌, ◌<◌, ◌≡◌, refl, ◌∙◌, Option, none, some, List, [], ◌∷◌, arith, ltb, leb, ◌==◌,
  if◌then◌else◌,
}
use femu_on_virt.Ftl.Types.{Line}
use femu_on_virt.Ftl.Victims.{
  Pqueue, IsPqueue, OnlyPos, Placed, victim_line_get_pri, victim_line_set_pri, victim_line_set_pos,
}

abbrev pub Entries : Type 0
Entries = List (ℕ × ℕ)

unfoldable pub copies : Entries → ℕ → ℕ
copies [] j = 0
copies ((i, pri) ∷ q) j = copies q j + (if i == j then 1 else 0)

unfoldable pub insert_at : ℕ → ℕ → Entries → Entries
insert_at i pri [] = (i, pri) ∷ []
insert_at i pri ((j, p) ∷ q) =
    if leb pri p then (i, pri) ∷ (j, p) ∷ q else (j, p) ∷ insert_at i pri q

-- The entries of line `i` with a new priority.
unfoldable pub reprioritise : ℕ → ℕ → Entries → Entries
unfolding insert_at
reprioritise i pri [] = []
reprioritise i pri ((j, p) ∷ q) =
    if i == j then insert_at i pri (reprioritise i pri q) else insert_at j p (reprioritise i pri q)

unfoldable pub place : Entries → (ℕ → Line) → ℕ → Line
unfolding copies victim_line_set_pos
place q ls j = if ltb 0 (copies q j) then victim_line_set_pos (ls j) 1 else ls j

abbrev head? : Entries → Option ℕ
head? [] = none
head? ((i, p) ∷ q) = some i

abbrev tail : Entries → Entries
tail [] = []
tail (e ∷ q) = q

instance abbrev pub sample : Pqueue Entries
unfolding insert_at reprioritise place victim_line_get_pri victim_line_set_pri
sample = record {
  init = λ n. [];
  insert = λ q ls i. let q' = insert_at i (victim_line_get_pri (ls i)) q in (q', place q' ls);
  change_priority = λ q ls pri i.
      let q' = reprioritise i pri q in
      (q', place q' (λ j. if i == j then victim_line_set_pri (ls i) pri else ls j));
  pop = λ q ls. (tail q, place (tail q) ls);
  peek = head?;
  copies = copies;
}

copies-insert_at :
    (i pri : ℕ) (q : Entries) (j : ℕ)
    → copies (insert_at i pri q) j ≡ copies q j + (if i == j then 1 else 0)
unfolding copies insert_at
copies-insert_at i pri [] j = refl
copies-insert_at i pri ((k, p) ∷ q) j = ground (arith, copies-insert_at i pri q j)

copies-reprioritise :
    (i pri : ℕ) (q : Entries) (j : ℕ) → copies (reprioritise i pri q) j ≡ copies q j
unfolding copies reprioritise
copies-reprioritise i pri [] j = refl
copies-reprioritise i pri ((k, p) ∷ q) j = ground (
  arith,
  copies-reprioritise i pri q j,
  copies-insert_at i pri (reprioritise i pri q) j,
  copies-insert_at k p (reprioritise i pri q) j,
)

place-OnlyPos : (q : Entries) (ls : ℕ → Line) → OnlyPos ls (place q ls)
unfolding place
place-OnlyPos q ls = record {
  id = λ j. ground arith;
  ipc = λ j. ground arith;
  vpc = λ j. ground arith;
}

place-inside : (q : Entries) (ls : ℕ → Line) (j : ℕ) → 0 < copies q j → 0 < (place q ls j).pos
unfolding place
place-inside q ls j h = ground arith

place-outside :
    (q : Entries) (ls : ℕ → Line) (j : ℕ) → copies q j ≡ 0 → (place q ls j).pos ≡ (ls j).pos
unfolding place
place-outside q ls j h = ground arith

place-Placed : (q : Entries) (ls : ℕ → Line) → Placed sample q ls (place q ls)
unfolding sample
place-Placed q ls = record { inside = place-inside q ls; outside = place-outside q ls }

peek-copies : (q : Entries) (i : ℕ) → head? q ≡ some i → 0 < copies q i
unfolding copies
peek-copies [] i h = cc
peek-copies ((k, p) ∷ q) i h = ground arith

peek-none_copies : (q : Entries) (j : ℕ) → head? q ≡ none → copies q j ≡ 0
unfolding copies
peek-none_copies [] j h = refl
peek-none_copies ((k, p) ∷ q) j h = cc

pop-copies :
    (q : Entries) (i j : ℕ)
    → head? q ≡ some i
    → copies (tail q) j + (if i == j then 1 else 0) ≡ copies q j
unfolding copies
pop-copies [] i j h = cc
pop-copies ((k, p) ∷ q) i j h = ground arith

set_pri-pos :
    (ls : ℕ → Line) (pri i j : ℕ)
    → (if i == j then victim_line_set_pri (ls i) pri else ls j).pos ≡ (ls j).pos
unfolding victim_line_set_pri
set_pri-pos ls pri i j = ground arith

abbrev set_pri : (ℕ → Line) → ℕ → ℕ → ℕ → Line
unfolding victim_line_set_pri
set_pri ls pri i j = if i == j then victim_line_set_pri (ls i) pri else ls j

set_pri-fields :
    (ls : ℕ → Line) (pri i j : ℕ)
    → ((set_pri ls pri i j).id ≡ (ls j).id)
      × ((set_pri ls pri i j).ipc ≡ (ls j).ipc)
      × ((set_pri ls pri i j).vpc
          ≡ (if i == j then (victim_line_set_pri (ls i) pri).vpc else (ls j).vpc))
unfolding victim_line_set_pri
set_pri-fields ls pri i j = ground arith

-- After a change of priority the positions are those of `place` over the changed line.
place-set_pri :
    (q : Entries) (ls : ℕ → Line) (pri i : ℕ)
    → Placed sample q ls (place q (λ j. if i == j then victim_line_set_pri (ls i) pri else ls j))
unfolding sample
place-set_pri q ls pri i = record {
  inside = place-inside q _;
  outside = λ j h.
      place-outside q (λ k. if i == k then victim_line_set_pri (ls i) pri else ls k) j h
      ∙ set_pri-pos ls pri i j;
}

pub sample-IsPqueue : IsPqueue sample
unfolding sample
sample-IsPqueue = record {
  copies-init = λ n j. refl;
  copies-insert = λ q ls i. copies-insert_at i (victim_line_get_pri (ls i)) q;
  insert_only = λ q ls i. place-OnlyPos _ ls;
  insert_placed = λ q ls i. place-Placed _ ls;
  copies-change = λ q ls pri i j. copies-reprioritise i pri q j;
  change_id = λ q ls pri i j.
      (place-OnlyPos (reprioritise i pri q) (set_pri ls pri i)).id j
      ∙ (set_pri-fields ls pri i j).0;
  change_ipc = λ q ls pri i j.
      (place-OnlyPos (reprioritise i pri q) (set_pri ls pri i)).ipc j
      ∙ (set_pri-fields ls pri i j).1;
  change_vpc = λ q ls pri i j h.
      (place-OnlyPos (reprioritise i pri q) (set_pri ls pri i)).vpc j
      ∙ (set_pri-fields ls pri i j).2;
  change_placed = λ q ls pri i. place-set_pri _ ls pri i;
  copies-peek = peek-copies;
  peek-none = peek-none_copies;
  copies-pop = λ q ls i j. pop-copies q i j;
  pop_only = λ q ls. place-OnlyPos _ ls;
  pop_placed = λ q ls. place-Placed _ ls;
}

pub sample-peek : (i pri : ℕ) (q : Entries) → sample.peek ((i, pri) ∷ q) ≡ some i
unfolding sample
sample-peek i pri q = refl
