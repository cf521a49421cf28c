-- ===== src/Driver/Files.antt =====
-- __proc_file_read and __proc_file_write: the files under /proc/nvmev. What sscanf finds in the input is
-- a parameter; what seq_printf prints is the result of a read.
use femu_on_virt.Base.{
  ℕ, zero, suc, ◌*◌, Option, none, some, List, [], ◌∷◌, ltb, if◌then◌else◌, add32, add64,
}
use femu_on_virt.Ftl.Params.{adjust_ftl_latency}
use femu_on_virt.Dispatch.Types.{SqStat}
use femu_on_virt.Dispatch.Units.{Config}
use femu_on_virt.Dispatch.Commands.{SubmissionQueue, Device, num_proc}
use femu_on_virt.Admin.Types.{Queues}

pub data ProcFile : Type 0 where
  read_times : ProcFile
  write_times : ProcFile
  io_units : ProcFile
  stat : ProcFile
  debug : ProcFile

-- What sscanf returns: the end of the input before a number (-1), or the numbers it assigns.
pub data Scanned : Type 0 where
  eof : Scanned
  numbers : List ℕ → Scanned

-- The state that the files show and change.
pub record Shown (Q : Type 0) : Type 0 where
  pub config : Config
  pub queues : Queues
  pub device : Device Q

-- The `i`-th number that was assigned, or the old value.
unfoldable pub assigned : Scanned → ℕ → ℕ → ℕ
assigned eof i old = old
assigned (numbers []) i old = old
assigned (numbers (n ∷ ns)) zero old = n
assigned (numbers (n ∷ ns)) (suc i) old = assigned (numbers ns) i old

abbrev zero_stat : SqStat
zero_stat = record {
  nr_dispatched = 0;
  nr_dispatch = 0;
  nr_in_flight = 0;
  max_nr_in_flight = 0;
  total_io = 0;
}

-- A loop over the submission queues 1 to nr_sq that changes the statistics.
unfoldable pub map_stats :
    ℕ → (SqStat → SqStat) → (ℕ → Option SubmissionQueue) → ℕ → Option SubmissionQueue
map_stats nr_sq f sqes i =
    if ltb 0 i
    then (if ltb nr_sq i
        then sqes i
        else elim (sqes i) [ none ↦ none | some sq ↦ some (record sq { stat = f sq.stat }) ])
    else sqes i

module _ {Q : Type 0} where
  unfoldable set_latency : ℕ → ℕ → Device Q → Device Q
  set_latency target lat d = record d {
    ssd = record (d.ssd) { sp = adjust_ftl_latency target lat d.ssd.sp };
  }

  -- kzalloc of a new io_unit_stat.
  unfoldable reset_units : Shown Q → Shown Q
  reset_units s = record s { device = record (s.device) { io_unit_stat = λ i. 0 } }

  unfoldable set_units : Scanned → Shown Q → Shown Q
  unfolding assigned
  set_units scanned s =
      let nr_io_units = assigned scanned 0 s.config.nr_io_units in
      record s {
        config = record (s.config) {
          nr_io_units = nr_io_units;
          io_unit_shift = assigned scanned 1 s.config.io_unit_shift;
        };
        device = record (s.device) { nr_io_units = nr_io_units };
      }

  -- `ret < 1` on an `unsigned int`: -1 is not.
  unfoldable pub write_io_units : Scanned → Shown Q → Shown Q
  unfolding reset_units set_units
  write_io_units (numbers []) s = s
  write_io_units eof s = reset_units s
  write_io_units (numbers (n ∷ ns)) s = reset_units (set_units (numbers (n ∷ ns)) s)

  -- `adjust_ftl_latency` has an `int` for the time, of the same 32 bits.
  unfoldable pub file_write : ProcFile → Scanned → Shown Q → Shown Q
  unfolding set_latency assigned write_io_units map_stats
  file_write read_times scanned s =
      let config = record (s.config) {
        read_delay = assigned scanned 0 s.config.read_delay;
        read_time = assigned scanned 1 s.config.read_time;
        read_trailing = assigned scanned 2 s.config.read_trailing;
      } in
      record s { config = config; device = set_latency 0 config.read_time s.device }
  file_write write_times scanned s =
      let config = record (s.config) {
        write_delay = assigned scanned 0 s.config.write_delay;
        write_time = assigned scanned 1 s.config.write_time;
        write_trailing = assigned scanned 2 s.config.write_trailing;
      } in
      record s { config = config; device = set_latency 1 config.write_time s.device }
  file_write io_units scanned s = write_io_units scanned s
  file_write stat scanned s = record s {
    queues = record (s.queues) { sqes = map_stats s.queues.nr_sq (λ _. zero_stat) s.queues.sqes };
  }
  file_write debug scanned s = s

-- The numbers that a read prints: those of one file, or a line for each queue and the totals.
pub record Row : Type 0 where
  pub queue : ℕ
  pub entries : ℕ
  pub stat_of : SqStat

pub record Totals : Type 0 where
  pub nr_in_flight : ℕ
  pub nr_dispatch : ℕ
  pub nr_dispatched : ℕ
  pub total_io : ℕ

pub data Printed : Type 0 where
  times : ℕ → ℕ → ℕ → Printed
  units : ℕ → ℕ → Printed
  stats : List Row → Totals → Printed
  nothing : Printed

unfoldable pub add_stat : SqStat → Totals → Totals
add_stat x t = record {
  nr_in_flight = add32 t.nr_in_flight x.nr_in_flight;
  nr_dispatch = add32 t.nr_dispatch x.nr_dispatch;
  nr_dispatched = add32 t.nr_dispatched x.nr_dispatched;
  total_io = add64 t.total_io x.total_io;
}

-- The new commands of a queue: __get_nr_entries.
unfoldable pub get_nr_entries : Queues → ℕ → ℕ → ℕ
get_nr_entries q dbs_idx queue_size = num_proc queue_size (q.dbs dbs_idx) (q.old_dbs dbs_idx)

-- The loop of the statistics: `k` queues are left, the next is `i`.
unfoldable pub stat_rows : Queues → ℕ → ℕ → Totals → List Row × Totals
unfolding add_stat get_nr_entries
stat_rows q zero i t = ([], t)
stat_rows q (suc k) i t = elim (q.sqes i) [
  | none ↦ stat_rows q k (suc i) t
  | some sq ↦
      let rest = stat_rows q k (suc i) (add_stat sq.stat t) in
      (
        record { queue = i; entries = get_nr_entries q (i * 2) sq.queue_size; stat_of = sq.stat }
            ∷ rest.0,
        rest.1,
      )
]

module _ {Q : Type 0} where
  -- A read of the statistics resets the maximum of each queue.
  unfoldable pub file_read : ProcFile → Shown Q → Printed × Shown Q
  unfolding stat_rows map_stats
  file_read read_times s = (times s.config.read_delay s.config.read_time s.config.read_trailing, s)
  file_read write_times s =
      (times s.config.write_delay s.config.write_time s.config.write_trailing, s)
  file_read io_units s = (units s.config.nr_io_units s.config.io_unit_shift, s)
  file_read stat s =
      let zero_totals : Totals = record {
        nr_in_flight = 0;
        nr_dispatch = 0;
        nr_dispatched = 0;
        total_io = 0;
      } in
      let r = stat_rows s.queues s.queues.nr_sq 1 zero_totals in
      let reset = λ (x : SqStat). record x { max_nr_in_flight = 0 } in
      (
        stats r.0 r.1,
        record s {
          queues = record (s.queues) { sqes = map_stats s.queues.nr_sq reset s.queues.sqes };
        },
      )
  file_read debug s = (nothing, s)
