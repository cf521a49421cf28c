-- ===== src/Dispatch/Place.antt =====
-- The insertion of __enqueue_io_req, on the requests in flight read from the head.
use femu_on_virt.Base.{
  ℕ, suc, ◌+◌, ◌<◌, ◌^◌, ◌≡◌, ◌≢◌, inl, inr, refl, subst, sym, ap, ◌∙◌, false, ◌||◌, Bool-cases,
  List, [], ◌∷◌, length, contains, contains-append, length-append, ok, ok-injective, arith, ◌==◌,
  ==-false, minus_one32, last_of, Distinct, rev_onto, contains-rev_onto, length-rev_onto,
  Distinct-rev_onto, last_of-rev_onto,
}
use mathlib.Core.List.{append-nil}
use femu_on_virt.Dispatch.Types.{ProcInfo}
use femu_on_virt.Dispatch.Table.{set_next, set_prev, link_request, insert_request}
use femu_on_virt.Dispatch.Links.{Linked}
use femu_on_virt.Dispatch.Chain.{
  Back, Back-first, Front, stops, later, earlier, first_or_none, find_place-Back,
}
use femu_on_virt.Dispatch.Insert.{InFlight, inserted, some_request, insert_request-InFlight}

-- The chain of requests in flight, read from its end.
pub turn_chain :
    (pi : ProcInfo) (p c : ℕ) (acc ids : List ℕ)
    → Linked pi p c ids
    → Back pi p acc
    → Front pi c acc
    → Back pi (last_of p ids) (rev_onto acc ids) × Front pi minus_one32 (rev_onto acc ids)
turn_chain pi p c acc [] l b f = (b, subst (λ n. Front pi n acc) l f)
turn_chain pi p c acc (i ∷ is) l b f =
    turn_chain pi i (pi.proc_table i).next (i ∷ acc) is l.3
      (refl, l.1, subst (λ v. Back pi v acc) (sym l.2) b) (refl, subst (λ v. Front pi v acc) l.0 f)

-- The same chain, read from its head.
head_chain :
    (pi : ProcInfo) (c n : ℕ) (acc ids : List ℕ)
    → Back pi c ids
    → Front pi n ids
    → Linked pi c n acc
    → Linked pi minus_one32 pi.io_seq (rev_onto acc ids)
head_chain pi c n acc [] b f l =
    subst (λ v. Linked pi v pi.io_seq acc) b (subst (λ v. Linked pi c v acc) (sym f) l)
head_chain pi c n acc (i ∷ is) b f l = head_chain pi (pi.proc_table i).prev i (i ∷ acc) is b.2 f.1 (
  refl,
  b.1,
  refl,
  subst (λ v. Linked pi i v acc) (sym f.0) (subst (λ v. Linked pi v n acc) b.0 l),
)

pub some : (xs : List ℕ) → 0 < length xs → (x : ℕ) × (ys : List ℕ) × (xs ≡ x ∷ ys)
some [] h = absurd (omega (arith, h))
some (x ∷ xs) h = (x, xs, refl)

first_earlier-apart :
    (pi : ProcInfo) (t j : ℕ) (ids : List ℕ)
    → contains j ids ≡ false
    → j ≢ minus_one32
    → (j == first_or_none (earlier pi t ids)) ≡ false
first_earlier-apart pi t j [] c h = ground arith
first_earlier-apart pi t j (i ∷ is) c h = elim (Bool-cases (stops pi t i)) [
  | inl e ↦ rw e (ground arith)
  | inr e ↦ rw e (first_earlier-apart pi t j is (ground arith) h)
]

-- What the links of a request leave.
link_next :
    (e curr : ℕ) (pi : ProcInfo) (j : ℕ)
    → (j == e) ≡ false
    → (j == curr) ≡ false
    → ((link_request e curr pi).proc_table j).next ≡ (pi.proc_table j).next
unfolding link_request set_next set_prev
link_next e curr pi j a b = elim (Bool-cases (curr == minus_one32)) [
  | inl x ↦ rw x (ground arith)
  | inr x ↦ elim (Bool-cases ((pi.proc_table curr).next == minus_one32)) [
    | inl y ↦ rw (x, y) (ground arith)
    | inr y ↦ rw (x, y) (ground arith)
  ]
]

link_free :
    (e curr : ℕ) (pi : ProcInfo)
    → ((link_request e curr pi).free_seq ≡ pi.free_seq)
      × ((link_request e curr pi).free_seq_end ≡ pi.free_seq_end)
unfolding link_request set_next set_prev
link_free e curr pi = elim (Bool-cases (curr == minus_one32)) [
  | inl x ↦ rw x (refl, refl)
  | inr x ↦ elim (Bool-cases ((pi.proc_table curr).next == minus_one32)) [
    | inl y ↦ rw (x, y) (refl, refl)
    | inr y ↦ rw (x, y) (refl, refl)
  ]
]

insert_request-eq :
    (fuel e t : ℕ) (pi : ProcInfo) (x : ℕ) (is : List ℕ)
    → InFlight pi (x ∷ is)
    → length (x ∷ is) < fuel
    → insert_request fuel e t pi ≡ ok (link_request e (first_or_none (earlier pi t (x ∷ is))) pi)
unfolding insert_request
insert_request-eq fuel e t pi x is q h =
    let none : (pi.io_seq == minus_one32) ≡ false = ==-false _ _ (some_request pi x is q) in
    rw (none, find_place-Back fuel pi t pi.io_seq_end (x ∷ is) q.back h) refl

-- The requests in flight, from the head, with `e` in its place.
abbrev pub placed : ProcInfo → ℕ → List ℕ → List ℕ
placed pi e ids = rev_onto [] (inserted pi e (rev_onto [] ids))

later-earlier :
    (pi : ProcInfo) (t j : ℕ) (ids : List ℕ)
    → ((contains j (later pi t ids) || contains j (earlier pi t ids)) ≡ contains j ids)
      × (length (later pi t ids) + length (earlier pi t ids) ≡ length ids)
later-earlier pi t j [] = (refl, omega arith)
later-earlier pi t j (i ∷ is) = elim (Bool-cases (stops pi t i)) [
  | inl e ↦ rw e (ground arith, omega arith)
  | inr e ↦
      let (inside, size) = later-earlier pi t j is in
      rw e (ground (arith, inside), omega (arith, size))
]

pub placed_lem :
    (pi : ProcInfo) (e j : ℕ) (ids : List ℕ)
    → (contains j (placed pi e ids) ≡ ((e == j) || contains j ids))
      × (length (placed pi e ids) ≡ suc (length ids))
placed_lem pi e j ids =
    let t = (pi.proc_table e).nsecs_target in
    let turned = rev_onto [] ids in
    let (inside, size) = later-earlier pi t j turned in
    (
      ground (
        arith,
        contains-rev_onto j [] (inserted pi e turned),
        contains-append j (later pi t turned) (e ∷ earlier pi t turned),
        inside,
        contains-rev_onto j [] ids,
      ),
      omega (
        arith,
        length-rev_onto [] (inserted pi e turned),
        length-append (later pi t turned) (e ∷ earlier pi t turned),
        size,
        length-rev_onto [] ids,
      ),
    )

size_of : (pi : ProcInfo) (e : ℕ) (ids : List ℕ) → 0 < length (inserted pi e ids)
size_of pi e ids =
    let t = (pi.proc_table e).nsecs_target in
    omega (arith, length-append (later pi t ids) (e ∷ earlier pi t ids))

-- What the insertion of a request makes of a table.
pub record IsPlaced (e : ℕ) (ids : List ℕ) (pi pi' : ProcInfo) : Type 0 where
  pub flight : Linked pi' minus_one32 pi'.io_seq (placed pi e ids)
  pub flight_end : pi'.io_seq_end ≡ last_of minus_one32 (placed pi e ids)
  pub distinct : Distinct (placed pi e ids)
  pub free : pi'.free_seq ≡ pi.free_seq
  pub free_end : pi'.free_seq_end ≡ pi.free_seq_end
  pub others :
      (j : ℕ)
      → contains j ids ≡ false
      → (j == e) ≡ false
      → j ≢ minus_one32
      → (pi'.proc_table j).next ≡ (pi.proc_table j).next

pub insert_some :
    (fuel e : ℕ) (pi : ProcInfo) (ids : List ℕ) (x : ℕ) (is : List ℕ)
    → rev_onto [] ids ≡ x ∷ is
    → InFlight pi (x ∷ is)
    → e < 2 ^ 31
    → contains e ids ≡ false
    → ((pi.proc_table e).prev ≡ minus_one32) × ((pi.proc_table e).next ≡ minus_one32)
    → length ids < fuel
    → (pi' : ProcInfo) × (insert_request fuel e (pi.proc_table e).nsecs_target pi ≡ ok pi')
      × IsPlaced e ids pi pi'
insert_some fuel e pi ids x is shape q small new alone h =
    let t = (pi.proc_table e).nsecs_target in
    let outside : (j : ℕ) → contains j ids ≡ false → contains j (x ∷ is) ≡ false = λ j c.
      subst (λ l. contains j l ≡ false) shape (ground (arith, contains-rev_onto j [] ids, c)) in
    let enough : length (x ∷ is) < fuel =
      subst (λ l. length l < fuel) shape (omega (arith, length-rev_onto [] ids, h)) in
    let (pi', ran, k, order) =
      insert_request-InFlight e fuel pi x is q small (outside e new) alone enough in
    let curr = first_or_none (earlier pi t (x ∷ is)) in
    let is_link : link_request e curr pi ≡ pi' =
      ok-injective (sym (insert_request-eq fuel e t pi x is q enough) ∙ ran) in
    let here : inserted pi e (x ∷ is) ≡ inserted pi e (rev_onto [] ids) =
      ap (inserted pi e) (sym shape) in
    let k1 = subst (InFlight pi') here k in
    let (y, ys, cons) = some (inserted pi e (rev_onto [] ids)) (size_of pi e (rev_onto [] ids)) in
    (
      pi',
      ran,
      record {
        flight =
            head_chain pi' pi'.io_seq_end minus_one32 [] (inserted pi e (rev_onto [] ids)) k1.back
              k1.front refl;
        flight_end =
            Back-first pi' pi'.io_seq_end (y ∷ ys) (subst (Back pi' pi'.io_seq_end) cons k1.back)
            ∙ sym (last_of-rev_onto minus_one32 y [] ys)
            ∙ ap (λ l. last_of minus_one32 (rev_onto [] l)) (sym cons);
        distinct =
            Distinct-rev_onto [] (inserted pi e (rev_onto [] ids))
              (subst Distinct (sym (append-nil (inserted pi e (rev_onto [] ids)))) k1.distinct);
        free = ap (λ (p : ProcInfo). p.free_seq) (sym is_link) ∙ (link_free e curr pi).0;
        free_end = ap (λ (p : ProcInfo). p.free_seq_end) (sym is_link) ∙ (link_free e curr pi).1;
        others = λ j c ne real.
            ap (λ (p : ProcInfo). (p.proc_table j).next) (sym is_link)
            ∙ link_next e curr pi j ne (first_earlier-apart pi t j (x ∷ is) (outside j c) real);
      },
    )

pub insert_none :
    (fuel e t : ℕ) (pi : ProcInfo)
    → pi.io_seq ≡ minus_one32
    → e < 2 ^ 31
    → ((pi.proc_table e).prev ≡ minus_one32) × ((pi.proc_table e).next ≡ minus_one32)
    → (pi' : ProcInfo) × (insert_request fuel e t pi ≡ ok pi') × IsPlaced e [] pi pi'
unfolding insert_request
insert_none fuel e t pi none small alone = (
  record pi { io_seq = e; io_seq_end = e },
  rw none refl,
  record {
    flight = (refl, small, alone.0, alone.1);
    flight_end = refl;
    distinct = (refl, tt);
    free = refl;
    free_end = refl;
    others = λ j c ne real. refl;
  },
)
