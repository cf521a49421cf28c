-- ===== src/Ftl/Table.antt =====
-- The mapping tables, the page index, and the cells of the NAND array that a `ppa` names.
use femu_on_virt.Base.{
  ℕ, ◌^◌, Bool, ◌&&◌, not, ltb, ◌==◌, update, add32, mul32, slt32, sext64, ones64,
}
use femu_on_virt.Ftl.Types.{
  Ppa, ppa_word, NandPage, NandBlock, NandPlane, NandLun, SsdChannel, SsdParams, Line, Ssd,
}

unfoldable pub ppa2pgidx : SsdParams → Ppa → ℕ
ppa2pgidx spp p = sext64 (
    add32
      (add32
        (add32 (add32 (mul32 p.ch spp.pgs_per_ch) (mul32 p.lun spp.pgs_per_lun))
          (mul32 p.pl spp.pgs_per_pl))
        (mul32 p.blk spp.pgs_per_blk))
      p.pg)

-- `a >= 0 && a < max` on `int`
unfoldable pub in_bounds : ℕ → ℕ → Bool
in_bounds a max = ltb a (2 ^ 31) && slt32 a max

unfoldable pub valid_ppa : SsdParams → Ppa → Bool
unfolding in_bounds
valid_ppa spp p =
    in_bounds p.ch spp.nchs
    && (in_bounds p.lun spp.luns_per_ch
        && (in_bounds p.pl spp.pls_per_lun
            && (in_bounds p.blk spp.blks_per_pl
                && (in_bounds p.pg spp.pgs_per_blk && in_bounds p.sec spp.secs_per_pg))))

unfoldable pub valid_lpn : SsdParams → ℕ → Bool
valid_lpn spp lpn = ltb lpn (sext64 spp.tt_pgs)

unfoldable pub mapped_ppa : Ppa → Bool
unfolding ppa_word
mapped_ppa p = not (ppa_word p == ones64)

module _ {Q : Type 0} (s : Ssd Q) where
  unfoldable pub get_maptbl_ent : ℕ → Ppa
  get_maptbl_ent lpn = s.maptbl lpn

  unfoldable pub set_maptbl_ent : ℕ → Ppa → Ssd Q
  set_maptbl_ent lpn p = record s { maptbl = update s.maptbl lpn p }

  unfoldable pub get_rmap_ent : Ppa → ℕ
  get_rmap_ent p = s.rmap (ppa2pgidx s.sp p)

  unfoldable pub set_rmap_ent : ℕ → Ppa → Ssd Q
  set_rmap_ent lpn p = record s { rmap = update s.rmap (ppa2pgidx s.sp p) lpn }

  unfoldable pub get_ch : Ppa → SsdChannel
  get_ch p = s.ch p.ch

  unfoldable pub get_lun : Ppa → NandLun
  unfolding get_ch
  get_lun p = (get_ch p).lun p.lun

  unfoldable pub get_pl : Ppa → NandPlane
  unfolding get_lun
  get_pl p = (get_lun p).pl p.pl

  unfoldable pub get_blk : Ppa → NandBlock
  unfolding get_pl
  get_blk p = (get_pl p).blk p.blk

  unfoldable pub get_line : Ppa → Line
  get_line p = s.lm.lines p.blk

  unfoldable pub get_pg : Ppa → NandPage
  get_pg p = (get_blk p).pg p.pg

  -- A write through the pointer that `get_lun`, `get_blk` or `get_line` returns.
  unfoldable pub set_lun : Ppa → NandLun → Ssd Q
  unfolding get_ch
  set_lun p l =
      let c = get_ch p in
      record s { ch = update s.ch p.ch (record c { lun = update c.lun p.lun l }) }

  unfoldable pub set_blk : Ppa → NandBlock → Ssd Q
  unfolding get_pl set_lun
  set_blk p b =
      let l = get_lun p in
      let d = get_pl p in
      set_lun p (record l { pl = update l.pl p.pl (record d { blk = update d.blk p.blk b }) })

  unfoldable pub set_line : ℕ → Line → Ssd Q
  set_line i l = record s { lm = record (s.lm) { lines = update s.lm.lines i l } }
