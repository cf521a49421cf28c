-- ===== src/Ftl/Pages.antt =====
-- The status of pages, blocks and lines. The asserts only print, so a counter wraps as an `int`.
use femu_on_virt.Base.{
  ℕ, [], ◌∷◌, ◌++◌, not, ◌==◌, if◌then◌else◌, update, inc32, dec32, sext64, ltb, remove,
}
use femu_on_virt.Ftl.Types.{Ppa, Ssd, pg_free, pg_invalid, pg_valid}
use femu_on_virt.Ftl.Victims.{Pqueue}
use femu_on_virt.Ftl.Table.{get_blk, get_pg, get_line, set_blk, set_line}

module _ {Q : Type 0} where
  -- `pg->status = status`, with the new counters of the block.
  unfoldable pub set_page : Ppa → ℕ → ℕ → ℕ → Ssd Q → Ssd Q
  set_page p status ipc vpc s =
      let blk = get_blk s p in
      let pg = get_pg s p in
      set_blk s p (record blk {
        pg = update blk.pg p.pg (record pg { status = status });
        ipc = ipc;
        vpc = vpc;
      })

  unfoldable pub mark_page_valid : Ppa → Ssd Q → Ssd Q
  unfolding set_page
  mark_page_valid p s =
      let blk = get_blk s p in
      let s1 = set_page p pg_valid blk.ipc (inc32 blk.vpc) s in
      let line = get_line s1 p in set_line s1 p.blk (record line { vpc = inc32 line.vpc })

  -- The loop sets the first `pgs_per_blk` pages free.
  unfoldable pub mark_block_free : Ppa → Ssd Q → Ssd Q
  mark_block_free p s =
      let blk = get_blk s p in
      set_blk s p (record blk {
        pg = λ i.
            if ltb i s.sp.pgs_per_blk then record (blk.pg i) { status = pg_free } else blk.pg i;
        ipc = 0;
        vpc = 0;
        erase_cnt = inc32 blk.erase_cnt;
      })

  unfoldable pub mark_line_free : Ppa → Ssd Q → Ssd Q
  mark_line_free p s =
      let s1 = set_line s p.blk (record (get_line s p) { ipc = 0; vpc = 0 }) in
      record s1 {
        lm = record (s1.lm) {
          free_line_list = s1.lm.free_line_list ++ p.blk ∷ [];
          free_line_cnt = inc32 s1.lm.free_line_cnt;
        };
      }

module _ {Q : Type 0} ⦃pq : Pqueue Q⦄ where
  -- "Adjust the position of the victime line in the pq": a line with a position is in the queue,
  -- which then writes the line's new count.
  unfoldable pub drop_valid_count : ℕ → Ssd Q → Ssd Q
  drop_valid_count i s =
      let line = s.lm.lines i in
      let (q, ls) = pq.change_priority s.lm.victim_line_pq s.lm.lines (sext64 (dec32 line.vpc)) i in
      if not (line.pos == 0)
      then record s { lm = record (s.lm) { lines = ls; victim_line_pq = q } }
      else set_line s i (record line { vpc = dec32 line.vpc })

  -- "move line: full -> victim"
  unfoldable pub full_to_victim : ℕ → Ssd Q → Ssd Q
  full_to_victim i s =
      let (q, ls) = pq.insert s.lm.victim_line_pq s.lm.lines i in
      record s {
        lm = record (s.lm) {
          lines = ls;
          full_line_list = remove i s.lm.full_line_list;
          full_line_cnt = dec32 s.lm.full_line_cnt;
          victim_line_pq = q;
          victim_line_cnt = inc32 s.lm.victim_line_cnt;
        };
      }

  unfoldable pub mark_page_invalid : Ppa → Ssd Q → Ssd Q
  mark_page_invalid p s =
      let blk = get_blk s p in
      let s1 = set_page p pg_invalid (inc32 blk.ipc) (dec32 blk.vpc) s in
      let line = get_line s1 p in
      let was_full_line = line.vpc == s.sp.pgs_per_line in
      let s2 = drop_valid_count p.blk (set_line s1 p.blk (record line { ipc = inc32 line.ipc })) in
      if was_full_line then full_to_victim p.blk s2 else s2
