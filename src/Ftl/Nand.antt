-- ===== src/Ftl/Nand.antt =====
-- ssd_advance_status: the timing of one NAND command on its LUN.
use femu_on_virt.Base.{ℕ, suc, ltb, ◌==◌, if◌then◌else◌, add64, sub64, sext64}
use femu_on_virt.Ftl.Types.{
  Ppa, NandLun, NandCmd, SsdParams, Ssd, nand_read, nand_write, nand_erase, user_io,
}
use femu_on_virt.Ftl.Table.{get_lun, set_lun}

-- When the LUN can start: `max(next_lun_avail_time, cmd_stime)`.
unfoldable pub nand_stime : NandLun → ℕ → ℕ
nand_stime lun cmd_stime =
    if ltb lun.next_lun_avail_time cmd_stime then cmd_stime else lun.next_lun_avail_time

-- The time that the command takes in the array, by the `switch`.
unfoldable pub cmd_latency : SsdParams → NandCmd → ℕ
cmd_latency spp ncmd =
    if ncmd.cmd == nand_read
    then sext64 spp.pg_rd_lat
    else if ncmd.cmd == nand_write
    then (if ncmd.type == user_io then sext64 spp.pg_wr_lat else sext64 spp.pg_wr_lat)
    else sext64 spp.blk_er_lat

module _ {Q : Type 0} where
  -- `stime == 0` asks for a reading of the dispatcher's clock.
  unfoldable pub cmd_stime : NandCmd → Ssd Q → ℕ × Ssd Q
  cmd_stime ncmd s =
      if ncmd.stime == 0
      then (s.ioclock 0, record s { ioclock = λ n. s.ioclock (suc n) })
      else (ncmd.stime, s)

  -- One of the three known commands, from the time `start`.
  unfoldable pub run_cmd : Ppa → NandCmd → ℕ → Ssd Q → ℕ × Ssd Q
  unfolding nand_stime cmd_latency
  run_cmd p ncmd start s =
      let lun = get_lun s p in
      let next = add64 (nand_stime lun start) (cmd_latency s.sp ncmd) in
      (sub64 next start, set_lun s p (record lun { next_lun_avail_time = next }))

  -- An unknown command reports an error and takes no time.
  unfoldable pub ssd_advance_status : Ppa → NandCmd → Ssd Q → ℕ × Ssd Q
  unfolding cmd_stime run_cmd
  ssd_advance_status p ncmd s =
      let (start, s') = cmd_stime ncmd s in
      if ltb nand_erase ncmd.cmd then (0, s') else run_cmd p ncmd start s'
