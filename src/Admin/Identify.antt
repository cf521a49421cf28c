-- ===== src/Admin/Identify.antt =====
-- __nvmev_admin_identify_ctrl, __nvmev_admin_identify_namespace, _get_log_page and _set_features.
use femu_on_virt.Base.{
  ℕ, ◌+◌, ◌-◌, ◌*◌, ◌/◌, ◌%◌, ◌^◌, some, Run, ok, ◌>>=◌, ◌==◌, ltb, if◌then◌else◌, update, w32,
}
use Prim.Native.Nat.{bit_or}
use femu_on_virt.Admin.Types.{
  AdminCommand, AdminQueue, Queues, LbaFormat, IdNs, IdCtrl, Page, low, high, nr_max_io_queue,
  respond, set_result,
}

-- Less the three strings: the serial number, the model and the firmware.
abbrev pub id_ctrl : IdCtrl
id_ctrl = record { nn = 1; oncs = 0; acl = 3; vwc = 0; mdts = 5; sqes = 0x66; cqes = 0x44 }

unfoldable pub identify_ctrl : ℕ → AdminCommand → AdminQueue × Queues → Run (AdminQueue × Queues)
identify_ctrl eid cmd (q, d) = respond eid cmd.command_id 0 q >>= λ q'.
    ok
      (q', record d { pages = update d.pages (cmd.prp1 / 2 ^ 12) (some (Page.controller id_ctrl)) })

unfoldable pub get_log_page : ℕ → AdminCommand → AdminQueue × Queues → Run (AdminQueue × Queues)
get_log_page eid cmd (q, d) = respond eid cmd.command_id 2 q >>= λ q'. ok (q', d)

-- The formats: 512-byte blocks with 0, 8 and 16 bytes of metadata, and 4096-byte blocks with 0, 8,
-- 64 and 128; NVME_LBAF_RP_GOOD is 2, NVME_LBAF_RP_BEST 0.
unfoldable pub lba_format : ℕ → LbaFormat
lba_format i =
    if i == 0
    then record { ms = 0; ds = 9; rp = 2 }
    else if i == 1
    then record { ms = 8; ds = 9; rp = 2 }
    else if i == 2
    then record { ms = 16; ds = 9; rp = 2 }
    else if i == 3
    then record { ms = 0; ds = 12; rp = 0 }
    else if i == 4
    then record { ms = 8; ds = 12; rp = 0 }
    else if i == 5
    then record { ms = 64; ds = 12; rp = 0 }
    else if i == 6
    then record { ms = 128; ds = 12; rp = 0 }
    else record { ms = 0; ds = 0; rp = 0 }

-- The page is zero before, so `flbas` is 0 when the size is computed.
unfoldable pub id_ns : ℕ → IdNs
unfolding lba_format
id_ns storage_size =
    let nsze = storage_size / 2 ^ (lba_format (0 % 2 ^ 4)).ds in
    record {
      nsze = nsze;
      ncap = nsze;
      nuse = nsze;
      nlbaf = 6;
      flbas = 0;
      dps = 0;
      lbaf = lba_format;
    }

unfoldable pub identify_namespace :
    ℕ → AdminCommand → AdminQueue × Queues → Run (AdminQueue × Queues)
unfolding id_ns
identify_namespace eid cmd (q, d) = respond eid cmd.command_id 0 q >>= λ q'. ok (
  q',
  record d {
    pages = update d.pages (cmd.prp1 / 2 ^ 12) (some (Page.namespace (id_ns d.storage_size)));
  },
)

-- `min(num_queue, NR_MAX_IO_QUEUE)` of a 0-based count.
unfoldable pub granted : ℕ → ℕ
unfolding nr_max_io_queue
granted n = if ltb (n + 1) nr_max_io_queue then n + 1 else nr_max_io_queue

-- NVME_FEAT_NUM_QUEUES is 7; every other feature is accepted and ignored.
unfoldable pub set_features : ℕ → AdminCommand → AdminQueue × Queues → Run (AdminQueue × Queues)
unfolding granted low high
set_features eid cmd (q, d) =
    let nr_sq = granted (low cmd.dword11) in
    let nr_cq = granted (high cmd.dword11) in
    let r : Run (AdminQueue × Queues) =
      if cmd.dword10 == 7
      then (set_result (bit_or (w32 ((nr_cq - 1) * 2 ^ 16)) (nr_sq - 1)) q >>= λ q'.
          ok (q', record d { nr_sq = nr_sq; nr_cq = nr_cq }))
      else ok (q, d) in
    r >>= λ s. respond eid cmd.command_id 0 s.0 >>= λ q''. ok (q'', s.1)
