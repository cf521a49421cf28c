-- ===== src/Ftl/Lines.antt =====
-- The free lines and the write pointer. NVMEV_ASSERT and check_addr only print; a NULL `curline`
-- is dereferenced by `wpp->curline->id`, which is a fault.
use femu_on_virt.Base.{
  ℕ, ◌%◌, ◌^◌, Option, none, some, [], ◌∷◌, ◌++◌, Run, ok, fault, ◌==◌, if◌then◌else◌, inc32, dec32,
}
use femu_on_virt.Ftl.Types.{Ppa, zero_ppa, Ssd}
use femu_on_virt.Ftl.Victims.{Pqueue}

module _ {Q : Type 0} where
  -- `none` is NULL.
  unfoldable pub get_next_free_line : Ssd Q → Option ℕ × Ssd Q
  get_next_free_line s = elim (s.lm.free_line_list) [
    | [] ↦ (none, s)
    | curline ∷ rest ↦ (
      some curline,
      record s {
        lm = record (s.lm) { free_line_list = rest; free_line_cnt = dec32 s.lm.free_line_cnt };
      },
    )
  ]

  -- "pick another empty line"
  unfoldable pub open_next_line : Ssd Q → Run (Ssd Q)
  unfolding get_next_free_line
  open_next_line s =
      let (line, s') = get_next_free_line s in
      elim line [
        | none ↦ fault
        | some i ↦ ok (record s' { wp = record (s'.wp) { curline = i; blk = (s'.lm.lines i).id } })
      ]

  unfoldable pub get_new_page : Ssd Q → Ppa
  get_new_page s = record zero_ppa {
    ch = s.wp.ch % 2 ^ 7;
    lun = s.wp.lun % 2 ^ 8;
    pg = s.wp.pg % 2 ^ 16;
    blk = s.wp.blk % 2 ^ 16;
    pl = s.wp.pl % 2 ^ 8;
  }

module _ {Q : Type 0} ⦃pq : Pqueue Q⦄ where
  -- "move current line to {victim,full} line list"
  unfoldable pub retire_curline : Ssd Q → Ssd Q
  retire_curline s =
      let cur = s.wp.curline in
      let (q, ls) = pq.insert s.lm.victim_line_pq s.lm.lines cur in
      if (s.lm.lines cur).vpc == s.sp.pgs_per_line
      then record s {
        lm = record (s.lm) {
          full_line_list = s.lm.full_line_list ++ cur ∷ [];
          full_line_cnt = inc32 s.lm.full_line_cnt;
        };
      }
      else record s {
        lm = record (s.lm) {
          lines = ls;
          victim_line_pq = q;
          victim_line_cnt = inc32 s.lm.victim_line_cnt;
        };
      }

  -- Channel first, then LUN, then page; a full line is put away.
  unfoldable pub ssd_advance_write_pointer : Ssd Q → Run (Ssd Q)
  ssd_advance_write_pointer s =
      let ch = inc32 s.wp.ch in
      let lun = inc32 s.wp.lun in
      let pg = inc32 s.wp.pg in
      if ch == s.sp.nchs
      then (if lun == s.sp.luns_per_ch
          then (if pg == s.sp.pgs_per_blk
              then open_next_line
                  (retire_curline (record s { wp = record (s.wp) { ch = 0; lun = 0; pg = 0 } }))
              else ok (record s { wp = record (s.wp) { ch = 0; lun = 0; pg = pg } }))
          else ok (record s { wp = record (s.wp) { ch = 0; lun = lun } }))
      else ok (record s { wp = record (s.wp) { ch = ch } })
