-- ===== src/Host/Fifo.antt =====
-- The ring with its reader is a bounded queue: completions are read in order, each once.
use femu_on_virt.Base.{
  ℕ, zero, suc, ◌-◌, ◌%◌, ◌≤◌, ◌<◌, ◌≡◌, ◌≢◌, refl, sym, ◌∙◌, ap, subst, none, some, List, [], ◌∷◌,
  ◌++◌, length, get_elem?, get_elem?-lt, get_elem?-last, inl, inr, length-append, arith,
}
use native.Mathlib.Decide.{dec_lt}
use femu_on_virt.Dispatch.Types.{Completion}
use femu_on_virt.Host.Reader.{
  Ring, Reader, step_at, step_phase, read, drain, place, tag, Holds, Pushed,
}

first-place : (v : Ring) (r : Reader) → r.at < v.size → place v.size r 0 ≡ r.at
first-place v r h = ground arith

-- A ring that has nothing to read keeps the host waiting while the entry at its place stays.
pub not_new :
    (v v' : Ring) (r : Reader) → Holds [] v r → v'.entries r.at ≡ v.entries r.at → read v' r ≡ none
unfolding read
not_new v v' r h e =
    let old : (v.entries r.at).status % 2 ≡ 1 - r.expected =
      subst (λ j. (v.entries j).status % 2 ≡ 1 - r.expected) (first-place v r h.at)
        (h.old 0 (omega arith) (omega (arith, h.at)) ∙ ground (arith, h.at)) in
    let same : (v'.entries r.at).status % 2 ≡ 1 - r.expected =
      ap (λ (c : Completion). c.status % 2) e ∙ old in
    ground (arith, same, h.expected)

-- With nothing to read, the host sees nothing.
pub read_empty : (v : Ring) (r : Reader) → Holds [] v r → read v r ≡ none
read_empty v r h = not_new v v r h refl

abbrev next_reader : Ring → Reader → Reader
next_reader v r = record { at = step_at v.size r.at; expected = step_phase v.size r.at r.expected }

next-place :
    (v : Ring) (r : Reader) (k : ℕ)
    → r.at < v.size
    → k < v.size
    → (place v.size (next_reader v r) k ≡ place v.size r (suc k))
next-place v r k h i = ground arith

next-tag :
    (v : Ring) (r : Reader) (k : ℕ)
    → r.at < v.size
    → r.expected < 2
    → k < v.size
    → (tag v.size (next_reader v r) k ≡ tag v.size r (suc k))
next-tag v r k h b i = ground arith

-- The entry just read is the last of those that the host will come to.
last_old :
    (id : ℕ) (ids : List ℕ) (v : Ring) (r : Reader)
    → Holds (id ∷ ids) v r
    → (k : ℕ) → length ids ≤ k
    → k < v.size
    → (v.entries (place v.size r (suc k))).status % 2 ≡ 1 - tag v.size r (suc k)
last_old id ids v r h k le lt = elim (dec_lt (suc k) v.size) [
  | yes i ↦ h.old (suc k) (omega arith) i
  | no n ↦
      let at : place v.size r (suc k) ≡ place v.size r 0 = ground (arith, h.at) in
      rw at (h.new 0 (omega arith) ∙ ground (arith, h.at, h.expected))
]

-- The host reads the oldest completion, and the ring then holds the others.
pub read_first :
    (id : ℕ) (ids : List ℕ) (v : Ring) (r : Reader)
    → Holds (id ∷ ids) v r
    → (read v r ≡ some (id, next_reader v r)) × Holds ids v (next_reader v r)
unfolding read
read_first id ids v r h =
    let at = λ (k : ℕ) (i : k < v.size). next-place v r k h.at i in
    let by = λ (k : ℕ) (i : k < v.size). next-tag v r k h.at h.expected i in
    let first = first-place v r h.at in
    let seen : (v.entries r.at).status % 2 ≡ r.expected =
      subst (λ j. (v.entries j).status % 2 ≡ r.expected) first
        (h.new 0 (omega arith) ∙ ground (arith, h.at)) in
    let named : (v.entries r.at).command_id ≡ id =
      subst (λ j. (v.entries j).command_id ≡ id) first (h.command 0 id refl) in
    (
      ground (arith, seen, named),
      record {
        at = ground (arith, h.at);
        expected = ground (arith, h.expected);
        few = omega (arith, h.few);
        head = h.head ∙ sym (at (length ids) (omega (arith, h.few)));
        phase = h.phase ∙ sym (by (length ids) (omega (arith, h.few)));
        command = λ k i e.
            rw (at k (omega (arith, h.few, get_elem?-lt ids k i e))) (h.command (suc k) i e);
        new = λ k lt.
            rw (at k (omega (arith, h.few)), by k (omega (arith, h.few)))
              (h.new (suc k) (omega arith));
        old = λ k le lt. rw (at k lt, by k lt) (last_old id ids v r h k le lt);
      },
    )

-- A host that reads on finds what the ring holds.
pub drain-Holds :
    (ids : List ℕ) (fuel : ℕ) (v : Ring) (r : Reader)
    → Holds ids v r
    → length ids < fuel
    → drain fuel v r ≡ ids
unfolding drain
drain-Holds ids zero v r h lt = absurd (omega arith)
drain-Holds [] (suc fuel) v r h lt = rw (drain, read_empty v r h) refl
drain-Holds (id ∷ ids) (suc fuel) v r h lt =
    let first = read_first id ids v r h in
    rw (drain, first.0)
      (ap (λ xs. id ∷ xs) (drain-Holds ids fuel v (next_reader v r) first.1 (omega arith)))

apart-place :
    (v : Ring) (r : Reader) (j k : ℕ)
    → r.at < v.size
    → j < k
    → k < v.size
    → place v.size r j ≢ place v.size r k
apart-place v r j k h i l = ground arith

abbrev pushed_ring : Ring → (ℕ → Completion) → Ring
pushed_ring v entries = record {
  size = v.size;
  head = step_at v.size v.head;
  phase = step_phase v.size v.head v.phase;
  entries = entries;
}

module _ (id : ℕ) (ids : List ℕ) (v : Ring) (entries : ℕ → Completion) (r : Reader)
    (h : Holds ids v r) (room : length ids < v.size) (command : (entries v.head).command_id ≡ id)
    (new : (entries v.head).status % 2 ≡ v.phase)
    (other : (j : ℕ) → j ≢ v.head → entries j ≡ v.entries j) where
  here : place v.size r (length ids) ≡ v.head
  here = sym h.head

  elsewhere :
      (k : ℕ)
      → k < v.size
      → k ≢ length ids
      → entries (place v.size r k) ≡ v.entries (place v.size r k)
  elsewhere k lt ne = other (place v.size r k) (ground (arith, h.head, h.at))

  pushed_new :
      (k : ℕ) → k < suc (length ids) → (entries (place v.size r k)).status % 2 ≡ tag v.size r k
  pushed_new k lt = elim (dec_lt k (length ids)) [
    | yes i ↦
        ap (λ (c : Completion). c.status % 2) (elsewhere k (omega arith) (omega arith)) ∙ h.new k i
    | no n ↦ let last : k ≡ length ids = omega arith in rw (last, here) (new ∙ h.phase)
  ]

  pushed_command :
      (k x : ℕ)
      → get_elem? (ids ++ id ∷ []) k ≡ some x
      → (entries (place v.size r k)).command_id ≡ x
  pushed_command k x e = elim (get_elem?-last ids id k x e) [
    | inl there ↦
        let lt = get_elem?-lt ids k x there in
        ap (λ (c : Completion). c.command_id) (elsewhere k (omega arith) (omega arith))
        ∙ h.command k x there
    | inr last ↦ rw (last.0, last.1, here) command
  ]

  push_entries-Holds : Holds (ids ++ id ∷ []) (pushed_ring v entries) r
  push_entries-Holds =
      let longer : length (ids ++ id ∷ []) ≡ suc (length ids) =
        omega (arith, length-append ids (id ∷ [])) in
      record {
        at = h.at;
        expected = h.expected;
        few = omega (arith, longer, room);
        head = rw longer (ground (arith, h.head, h.at));
        phase = rw longer (ground (arith, h.head, h.phase, h.at, h.expected));
        command = pushed_command;
        new = λ k lt. pushed_new k (omega (arith, longer));
        old = λ k le lt.
            ap (λ (c : Completion). c.status % 2) (elsewhere k lt (omega (arith, longer)))
            ∙ h.old k (omega (arith, longer)) lt;
      }

pushed_ring-eq : (id : ℕ) (v v' : Ring) (p : Pushed id v v') → pushed_ring v v'.entries ≡ v'
pushed_ring-eq id v v' p = λ i. record {
  size = sym p.size i;
  head = sym p.head i;
  phase = sym p.phase i;
  entries = v'.entries;
}

-- A completion with room goes behind those that are not read.
pub push-Holds :
    (id : ℕ) (ids : List ℕ) (v v' : Ring) (r : Reader)
    → Holds ids v r
    → length ids < v.size
    → Pushed id v v'
    → Holds (ids ++ id ∷ []) v' r
push-Holds id ids v v' r h room p =
    subst (λ w. Holds (ids ++ id ∷ []) w r) (pushed_ring-eq id v v' p)
      (push_entries-Holds id ids v v'.entries r h room p.command p.tag p.other)
