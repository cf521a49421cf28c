-- ===== src/Ftl/Advance.antt =====
-- What advancing the write pointer does to the invariant of the mapping.
use femu_on_virt.Base.{
  ℕ, suc, ◌≡◌, ◌≢◌, refl, sym, ◌∙◌, ap, subst, true, false, List, [], ◌∷◌, ok, fault, arith,
  ==_refl, ok-injective, dec32, Bool-cases, inl, inr, contains, Distinct,
}
use native.Mathlib.Decide.{dec_lt}
use femu_on_virt.Ftl.Types.{Ssd, WritePointer}
use femu_on_virt.Ftl.Victims.{Pqueue, IsPqueue}
use femu_on_virt.Ftl.Table.{get_pg, get_blk}
use femu_on_virt.Ftl.Lines.{open_next_line, retire_curline, ssd_advance_write_pointer}
use femu_on_virt.Ftl.Pointer.{
  IsOpen, rank, wp_rank, rank-lt, rewound, advance_within, advance_at_end,
}
use femu_on_virt.Ftl.Mapping.{HasRoom, SameMap, IsApart}

-- A successful call of `open_next_line` takes the head of the free list.
pub record Opened {Q : Type 0} (s s' : Ssd Q) : Type 0 where
  pub line : ℕ
  pub rest : List ℕ
  pub was : s.lm.free_line_list ≡ line ∷ rest
  pub same : SameMap s s'
  pub ids : (i : ℕ) → (s'.lm.lines i).id ≡ (s.lm.lines i).id
  pub free : s'.lm.free_line_list ≡ rest
  pub wp : s'.wp ≡ record (s.wp) { curline = line; blk = (s.lm.lines line).id }

module _ {Q : Type 0} where
  abbrev pub opened_state : Ssd Q → ℕ → List ℕ → Ssd Q
  opened_state s i rest = record s {
    wp = record (s.wp) { curline = i; blk = (s.lm.lines i).id };
    lm = record (s.lm) { free_line_list = rest; free_line_cnt = dec32 s.lm.free_line_cnt };
  }

  pub open-cons :
      (s : Ssd Q) (i : ℕ) (rest : List ℕ)
      → s.lm.free_line_list ≡ i ∷ rest
      → open_next_line s ≡ ok (opened_state s i rest)
  unfolding open_next_line
  open-cons s i rest e = ground arith

  pub open-nil : (s : Ssd Q) → s.lm.free_line_list ≡ [] → open_next_line s ≡ fault
  unfolding open_next_line
  open-nil s e = ground arith

  opened_state-Opened :
      (s : Ssd Q) (i : ℕ) (rest : List ℕ)
      → s.lm.free_line_list ≡ i ∷ rest
      → Opened s (opened_state s i rest)
  unfolding get_pg get_blk
  opened_state-Opened s i rest e = record {
    line = i;
    rest = rest;
    was = e;
    same = record { sp = refl; maptbl = refl; rmap = refl; status = λ p. refl };
    ids = λ j. refl;
    free = refl;
    wp = refl;
  }

  open_cases :
      (s s' : Ssd Q) (l : List ℕ) → s.lm.free_line_list ≡ l → open_next_line s ≡ ok s' → Opened s s'
  open_cases s s' [] e o = cc (open-nil s e)
  open_cases s s' (i ∷ rest) e o =
      subst (Opened s) (ok-injective (sym (open-cons s i rest e) ∙ o))
        (opened_state-Opened s i rest e)

  pub SameMap-trans : {s t u : Ssd Q} → SameMap s t → SameMap t u → SameMap s u
  SameMap-trans a b = record {
    sp = b.sp ∙ a.sp;
    maptbl = b.maptbl ∙ a.maptbl;
    rmap = b.rmap ∙ a.rmap;
    status = λ p. b.status p ∙ a.status p;
  }

  -- Taking a line of the free list keeps the invariant: all of its pages are free.
  module _ (s s' : Ssd Q) (from : ℕ) (h : HasRoom s from) (o : Opened s s') where
    first : contains o.line s.lm.free_line_list ≡ true
    first = rw (o.was, ==_refl o.line)

    line_id : (s.lm.lines o.line).id ≡ o.line
    line_id = h.ids o.line (h.spare o.line first).0

    new_blk : s'.wp.blk ≡ o.line
    new_blk = ap (λ (w : WritePointer). w.blk) o.wp ∙ line_id

    in_rest :
        (i : ℕ) → contains i s'.lm.free_line_list ≡ true → contains i s.lm.free_line_list ≡ true
    in_rest i c = let c' : contains i o.rest ≡ true = rw o.free at c in rw o.was (ground arith)

    all-Distinct : Distinct (o.line ∷ o.rest)
    all-Distinct = rw o.was at h.distinct

    not_again : (i : ℕ) → contains i s'.lm.free_line_list ≡ true → i ≢ s'.wp.blk
    not_again i c e =
        let c' : contains i o.rest ≡ true = rw o.free at c in
        let d : contains o.line o.rest ≡ false = all-Distinct.0 in cc (e ∙ new_blk)

    pub opened-HasRoom : HasRoom s' (wp_rank s')
    opened-HasRoom = record {
      layout = rw o.same.sp h.layout;
      opened =
          rw (o.same.sp, o.wp)
            (record {
              ch = h.opened.ch;
              lun = h.opened.lun;
              pl = h.opened.pl;
              blk = rw line_id (h.spare o.line first).0;
              pg = h.opened.pg;
            });
      curline = rw o.wp (sym line_id);
      ids = λ i k. o.ids i ∙ h.ids i k;
      room =
          λ p i b r. o.same.status p ∙ h.spare_free p (rw o.same.sp at i) (rw (b ∙ new_blk) first);
      spare = λ i c. ((h.spare i (in_rest i c)).0, not_again i c);
      spare_free = λ p i c. o.same.status p ∙ h.spare_free p (rw o.same.sp at i) (in_rest p.blk c);
      distinct = rw o.free all-Distinct.1;
    }

    pub opened-IsApart : (b : ℕ) → IsApart b s → IsApart b s'
    opened-IsApart b a = record {
      inside = a.inside;
      not_current = λ e. cc (e ∙ new_blk, first, a.not_free);
      not_free = elim (Bool-cases (contains b s'.lm.free_line_list)) [
        | inl c ↦ cc (in_rest b c, a.not_free)
        | inr c ↦ c
      ];
    }

module _ {Q : Type 0} ⦃pq : Pqueue Q⦄ (laws : IsPqueue pq) where
  pub retire-SameMap : (s : Ssd Q) → SameMap s (retire_curline s)
  unfolding retire_curline get_pg get_blk
  retire-SameMap s = record {
    sp = ground arith;
    maptbl = ground arith;
    rmap = ground arith;
    status = λ p. ground arith;
  }

  pub retire_keeps :
      (s : Ssd Q)
      → ((retire_curline s).wp ≡ s.wp)
        × ((retire_curline s).lm.free_line_list ≡ s.lm.free_line_list)
        × ((i : ℕ) → ((retire_curline s).lm.lines i).id ≡ (s.lm.lines i).id)
  unfolding retire_curline
  retire_keeps s = (
    ground arith,
    ground arith,
    λ i. ground (arith, (laws.insert_only s.lm.victim_line_pq s.lm.lines s.wp.curline).id i),
  )

module _ {Q : Type 0} ⦃pq : Pqueue Q⦄ (laws : IsPqueue pq) (s s' : Ssd Q)
    (h : HasRoom s (suc (wp_rank s))) where
  -- A state that differs only in where the pointer stands on its line.
  moved-SameMap : (w : WritePointer) → SameMap s (record s { wp = w })
  unfolding get_pg get_blk
  moved-SameMap w = record { sp = refl; maptbl = refl; rmap = refl; status = λ p. refl }

  within-HasRoom :
      (w : WritePointer)
      → IsOpen s.sp w
      → (rank s.sp w.ch w.lun w.pg ≡ suc (wp_rank s))
      → (w.curline ≡ s.wp.curline)
      → (w.blk ≡ s.wp.blk)
      → HasRoom (record s { wp = w }) (rank s.sp w.ch w.lun w.pg)
  unfolding get_pg get_blk
  within-HasRoom w o r c b = record {
    layout = h.layout;
    opened = o;
    curline = c ∙ h.curline ∙ sym b;
    ids = h.ids;
    room = λ p i e k. h.room p i (e ∙ b) (omega arith);
    spare = λ i e. ((h.spare i e).0, λ f. (h.spare i e).1 (f ∙ b));
    spare_free = h.spare_free;
    distinct = h.distinct;
  }

  retired-HasRoom : HasRoom (retire_curline (rewound s)) (suc (wp_rank s))
  unfolding get_pg get_blk
  retired-HasRoom =
      let m = retire-SameMap laws (rewound s) in
      let k = retire_keeps laws (rewound s) in
      record {
        layout = rw m.sp h.layout;
        opened =
            rw (m.sp, k.0)
              (record {
                ch = h.layout.some_chs;
                lun = omega arith;
                pl = h.opened.pl;
                blk = h.opened.blk;
                pg = omega arith;
              });
        curline = rw k.0 h.curline;
        ids = λ i j. k.2 i ∙ h.ids i j;
        room = λ p i e r.
            m.status p
            ∙ h.room p (rw m.sp at i) (e ∙ ap (λ (w : WritePointer). w.blk) k.0) (rw m.sp at r);
        spare = rw (k.0, k.1) h.spare;
        spare_free = λ p i c. m.status p ∙ h.spare_free p (rw m.sp at i) (rw k.1 at c);
        distinct = rw k.1 h.distinct;
      }

  -- A successful advance passes one free page, and touches no table.
  pub advance-HasRoom : ssd_advance_write_pointer s ≡ ok s' → HasRoom s' (wp_rank s') × SameMap s s'
  advance-HasRoom e = elim (dec_lt (suc (wp_rank s)) s.sp.pgs_per_line) [
    | yes k ↦
        let (w, to, o, r, c, b) = advance_within s h.layout h.opened k in
        subst (λ t. HasRoom t (wp_rank t) × SameMap s t) (ok-injective (sym to ∙ e))
          (within-HasRoom w o r c b, moved-SameMap w)
    | no k ↦
        let full : suc (wp_rank s) ≡ s.sp.pgs_per_line =
          omega (arith, rank-lt s h.layout h.opened) in
        let at_end = advance_at_end s h.layout h.opened full in
        let retired = retire_curline (rewound s) in
        let o = open_cases retired s' retired.lm.free_line_list refl (sym at_end ∙ e) in
        (
          opened-HasRoom retired s' (suc (wp_rank s)) retired-HasRoom o,
          SameMap-trans
              (SameMap-trans (moved-SameMap (rewound s).wp) (retire-SameMap laws (rewound s)))
              o.same,
        )
  ]

  -- A line apart stays apart: the pointer moves within its line or to a free one.
  pub advance-IsApart : (b : ℕ) → IsApart b s → ssd_advance_write_pointer s ≡ ok s' → IsApart b s'
  advance-IsApart b a e = elim (dec_lt (suc (wp_rank s)) s.sp.pgs_per_line) [
    | yes k ↦
        let (w, to, o, r, c, same) = advance_within s h.layout h.opened k in
        subst (IsApart b) (ok-injective (sym to ∙ e)) (record {
          inside = a.inside;
          not_current = λ f. a.not_current (f ∙ same);
          not_free = a.not_free;
        })
    | no k ↦
        let full : suc (wp_rank s) ≡ s.sp.pgs_per_line =
          omega (arith, rank-lt s h.layout h.opened) in
        let retired = retire_curline (rewound s) in
        let keeps = retire_keeps laws (rewound s) in
        let o =
          open_cases retired s' retired.lm.free_line_list refl
            (sym (advance_at_end s h.layout h.opened full) ∙ e) in
        opened-IsApart retired s' (suc (wp_rank s)) retired-HasRoom o b (record {
          inside = a.inside;
          not_current = rw keeps.0 a.not_current;
          not_free = rw keeps.1 a.not_free;
        })
  ]
