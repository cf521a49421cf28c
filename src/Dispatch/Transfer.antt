-- ===== src/Dispatch/Transfer.antt =====
-- What __do_perform_io copies: the storage side of a transfer, and the host's side when the pages
-- of the list are aligned.
use femu_on_virt.Base.{
  ℕ, zero, suc, ◌+◌, ◌-◌, ◌*◌, ◌/◌, ◌%◌, ◌≤◌, ◌<◌, ◌≡◌, ◌⊎◌, refl, Bool-cases, ==_iff, subst, inl,
  inr, Bool, true, false, ◌&&◌, leb, ltb, List, [], ◌∷◌, fault, ok, ◌==◌, w64, add64, arith,
}
use femu_on_virt.Dispatch.Prp.{
  page_size, PrpCommand, Copy, Cursor, next_paddr, copy_page, copy_round, copy_rounds, first_cursor,
  do_perform_io,
}

-- The bytes of the storage from `offset` on, `size` of them, each once and in order.
abbrev pub Covers : ℕ → ℕ → List Copy → Type 0
Covers offset size [] = size ≡ 0
Covers offset size (c ∷ cs) =
    (c.offset ≡ offset)
    × (0 < c.io_size)
    × (c.io_size ≤ page_size)
    × (c.io_size ≤ size)
    × Covers (add64 offset c.io_size) (size - c.io_size) cs

-- Every copy starts at the beginning of its host page, and so stays within it.
abbrev pub Aligned : List Copy → Type 0
Aligned [] = Unit
Aligned (c ∷ cs) = (c.mem_offs ≡ 0) × Aligned cs

Covers-at : (o o' n n' : ℕ) (cs : List Copy) → o ≡ o' → n ≡ n' → Covers o n cs → Covers o' n' cs
Covers-at o o' n n' cs e f c = subst (λ x. Covers x n' cs) e (subst (λ x. Covers o x cs) f c)

-- The addresses of a command are at the beginning of their pages.
pub record IsAligned (cmd : PrpCommand) (prp_list : ℕ → ℕ) : Type 0 where
  pub prp1 : cmd.prp1 % page_size ≡ 0
  pub prp2 : cmd.prp2 % page_size ≡ 0
  pub list : (i : ℕ) → prp_list i % page_size ≡ 0

-- The bytes behind the first page's copy.
abbrev pub after_first : PrpCommand → ℕ
after_first cmd = (cmd.length + 1) * 512 - (page_size - cmd.prp1 % page_size)

-- What is left behind the first page is no more than a page, and does not fit in the page of the
-- second address.
abbrev pub overruns : PrpCommand → Bool
overruns cmd =
    leb (after_first cmd) page_size && ltb page_size (after_first cmd + cmd.prp2 % page_size)

page-size :
    (paddr offs : ℕ) (listed : Bool) (c : Cursor)
    → 0 < c.remaining
    → (0 < (copy_page paddr offs listed c).0.io_size)
      × ((copy_page paddr offs listed c).0.io_size ≤ page_size)
      × ((copy_page paddr offs listed c).0.io_size ≤ c.remaining)
      × ((copy_page paddr offs listed c).1.remaining
          ≡ c.remaining - (copy_page paddr offs listed c).0.io_size)
      × ((copy_page paddr offs listed c).1.offset
          ≡ add64 c.offset (copy_page paddr offs listed c).0.io_size)
      × ((copy_page paddr offs listed c).0.offset ≡ c.offset)
unfolding copy_page
page-size paddr offs listed c h = ground arith

page_aligned :
    (paddr offs : ℕ) (listed : Bool) (c : Cursor)
    → paddr % page_size ≡ 0
    → c.mem_offs ≡ 0
    → ((copy_page paddr offs listed c).0.mem_offs ≡ 0)
      × ((copy_page paddr offs listed c).1.mem_offs ≡ 0)
unfolding copy_page
page_aligned paddr offs listed c a h = ground (arith, a, h)

module _ (cmd : PrpCommand) (prp_list : ℕ → ℕ) where
  -- A run of the loop that ends with the copies of what remains.
  abbrev Ends : ℕ → Cursor → Type 0
  Ends fuel c =
      (cs : List Copy) × (copy_rounds cmd prp_list fuel c ≡ ok cs)
      × Covers c.offset c.remaining cs
      × (IsAligned cmd prp_list → c.mem_offs ≡ 0 → Aligned cs)

  none_left : (fuel : ℕ) (c : Cursor) → (c.remaining == 0) ≡ true → Ends (suc fuel) c
  unfolding copy_rounds
  none_left fuel c e = ([], rw (copy_rounds, e) refl, (==_iff _ _).0 e, λ _ _. tt)

  -- A round that finds its address, and the rounds behind it.
  one_more :
      (fuel : ℕ) (c : Cursor) (paddr offs : ℕ) (listed : Bool)
      → (c.remaining == 0) ≡ false
      → next_paddr cmd prp_list c ≡ ok (paddr, offs, listed)
      → (IsAligned cmd prp_list → paddr % page_size ≡ 0)
      → Ends fuel (copy_page paddr offs listed c).1
      → Ends (suc fuel) c
  unfolding copy_rounds copy_round
  one_more fuel c paddr offs listed e found aligned (cs, run, covers, al) =
      let r = page-size paddr offs listed c (ground (arith, e)) in
      (
        (copy_page paddr offs listed c).0 ∷ cs,
        rw (copy_rounds, e, copy_round, found, run) refl,
        (r.5, r.0, r.1, r.2, Covers-at _ _ _ _ cs (r.4) (r.3) covers),
        λ a z.
            let (here, there) = page_aligned paddr offs listed c (aligned a) z in
            (here, al a there),
      )

  -- From the third round on, with a list.
  listed_rounds :
      (fuel : ℕ) (c : Cursor) → c.remaining < fuel → 2 ≤ c.prp_offs → c.listed ≡ true → Ends fuel c
  unfolding next_paddr copy_page
  listed_rounds zero c h two l = absurd (omega (arith, h))
  listed_rounds (suc fuel) c h two l = elim (Bool-cases (c.remaining == 0)) [
    | inl e ↦ none_left fuel c e
    | inr e ↦
        let paddr = prp_list c.prp2_offs in
        let r = page-size paddr (suc c.prp2_offs) true c (ground (arith, e)) in
        one_more fuel c paddr (suc c.prp2_offs) true e (ground (arith, two, l))
          (λ a. a.list c.prp2_offs)
          (listed_rounds fuel (copy_page paddr (suc c.prp2_offs) true c).1 (omega (arith, r, h))
            (omega (arith, two)) refl)
  ]

  -- A round that needs a list that is not there.
  unlisted_round :
      (fuel : ℕ) (c : Cursor)
      → (c.remaining == 0) ≡ false
      → 2 ≤ c.prp_offs
      → c.listed ≡ false
      → copy_rounds cmd prp_list (suc fuel) c ≡ fault
  unfolding copy_rounds copy_round next_paddr
  unlisted_round fuel c e two l =
      let found : next_paddr cmd prp_list c ≡ fault = ground (arith, two, l) in
      rw (copy_rounds, e, copy_round, found) refl

  -- What the second round comes to.
  abbrev RoundTwo : ℕ → Cursor → Type 0
  RoundTwo fuel c =
      let over = leb c.remaining page_size && ltb page_size (c.remaining + cmd.prp2 % page_size) in
      ((over ≡ true) × (copy_rounds cmd prp_list fuel c ≡ fault)) ⊎ ((over ≡ false) × Ends fuel c)

  second_page :
      (fuel : ℕ) (c : Cursor)
      → c.remaining < suc fuel
      → (c.remaining == 0) ≡ false
      → c.prp_offs ≡ 1
      → c.listed ≡ false
      → ltb page_size c.remaining ≡ false
      → RoundTwo (suc fuel) c
  unfolding next_paddr copy_page copy_rounds copy_round
  second_page zero c h e one l few = absurd (ground (arith, h, e))
  second_page (suc fuel) c h e one l few =
      let found : next_paddr cmd prp_list c ≡ ok (cmd.prp2, c.prp2_offs, c.listed) =
        ground (arith, one, few) in
      let c2 = (copy_page cmd.prp2 c.prp2_offs c.listed c).1 in
      let over = leb c.remaining page_size && ltb page_size (c.remaining + cmd.prp2 % page_size) in
      elim (Bool-cases over) [
        | inl o ↦
            let more : (c2.remaining == 0) ≡ false = ground (arith, o, e) in
            let stuck = unlisted_round fuel c2 more (omega (arith, one)) l in
            inl (o, rw (copy_rounds, e, copy_round, found, stuck) refl)
        | inr o ↦
            let done : (c2.remaining == 0) ≡ true = ground (arith, o, e, few) in
            inr (
              o,
              one_more (suc fuel) c cmd.prp2 c.prp2_offs c.listed e found (λ a. a.prp2)
                  (none_left fuel c2 done),
            )
      ]

  second_round :
      (fuel : ℕ) (c : Cursor)
      → c.remaining < fuel
      → c.prp_offs ≡ 1
      → c.listed ≡ false
      → RoundTwo fuel c
  unfolding next_paddr copy_page
  second_round zero c h one l = absurd (omega (arith, h))
  second_round (suc fuel) c h one l = elim (Bool-cases (c.remaining == 0)) [
    | inl e ↦ inr (ground (arith, e), none_left fuel c e)
    | inr e ↦ elim (Bool-cases (ltb page_size c.remaining)) [
      | inl more ↦ inr (
        ground (arith, more),
        (let paddr = prp_list c.prp2_offs in
            let r = page-size paddr (suc c.prp2_offs) true c (ground (arith, e)) in
            one_more fuel c paddr (suc c.prp2_offs) true e (ground (arith, one, more))
              (λ a. a.list c.prp2_offs)
              (listed_rounds fuel (copy_page paddr (suc c.prp2_offs) true c).1 (omega (arith, r, h))
                (omega (arith, one)) refl)),
      )
      | inr few ↦ second_page fuel c h e one l few
    ]
  ]

  -- With more fuel than the command has bytes, __do_perform_io ends. It dereferences NULL if what
  -- is left behind the page of the first address is at most a page, but does not fit in the page
  -- of the second address from there on: the loop then needs a list of addresses that it has not
  -- mapped. In all other cases it returns the command's length in bytes. Its copies are of 1 to
  -- 4096 bytes, and cover the command's part of the storage in order, each byte once; if all
  -- addresses are at the beginning of their pages, every copy starts at the beginning of its page.
  pub do_perform_io-Covers :
      (fuel : ℕ)
      → (cmd.length + 1) * 512 < fuel
      → ((overruns cmd ≡ true) × (do_perform_io cmd prp_list fuel ≡ fault))
        ⊎ ((overruns cmd ≡ false)
            × ((cs : List Copy) × (do_perform_io cmd prp_list fuel
                  ≡ ok (cs, (cmd.length + 1) * 512))
                × Covers (w64 (cmd.slba * 512)) ((cmd.length + 1) * 512) cs
                × (IsAligned cmd prp_list → Aligned cs)))
  unfolding do_perform_io first_cursor next_paddr copy_page copy_rounds copy_round
  do_perform_io-Covers zero h = absurd (omega (arith, h))
  do_perform_io-Covers (suc fuel) h =
      let c = first_cursor cmd prp_list in
      let c1 = (copy_page cmd.prp1 0 false c).1 in
      let r = page-size cmd.prp1 0 false c (omega arith) in
      let left : c1.remaining ≡ after_first cmd = ground arith in
      let e : (c.remaining == 0) ≡ false = ground arith in
      elim (second_round fuel c1 (omega (arith, r, h)) refl refl) [
        | inl o ↦ inl (
          subst (λ n. (leb n page_size && ltb page_size (n + cmd.prp2 % page_size)) ≡ true) left
              o.0,
          rw (copy_rounds, e, copy_round, o.1) refl,
        )
        | inr o ↦
            let (cs, run, covers, aligned) =
              one_more fuel c cmd.prp1 0 false e refl (λ a. a.prp1) o.1 in
            inr (
              subst (λ n. (leb n page_size && ltb page_size (n + cmd.prp2 % page_size)) ≡ false)
                  left o.0,
              (cs, rw run refl, covers, λ a. aligned a refl),
            )
      ]

  -- For a command of 4096 bytes whose first address is inside of a page and whose second one is at
  -- the beginning of a page, __do_perform_io makes two copies, and the second one starts in the
  -- second page at the offset of the first address, not at the page's beginning.
  pub do_perform_io-stale :
      (fuel : ℕ)
      → cmd.length ≡ 7
      → 0 < cmd.prp1 % page_size
      → cmd.prp2 % page_size ≡ 0
      → do_perform_io cmd prp_list (suc (suc (suc fuel)))
        ≡ ok (
          record {
            pfn = cmd.prp1 / page_size;
            mem_offs = cmd.prp1 % page_size;
            offset = w64 (cmd.slba * 512);
            io_size = page_size - cmd.prp1 % page_size;
          }
              ∷ record {
                pfn = cmd.prp2 / page_size;
                mem_offs = cmd.prp1 % page_size;
                offset = add64 (w64 (cmd.slba * 512)) (page_size - cmd.prp1 % page_size);
                io_size = cmd.prp1 % page_size;
              }
              ∷ [],
          4096,
        )
  unfolding do_perform_io copy_rounds copy_round next_paddr copy_page first_cursor
  do_perform_io-stale fuel e o a = ground arith
