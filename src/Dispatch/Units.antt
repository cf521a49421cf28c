-- ===== src/Dispatch/Units.antt =====
-- __schedule_io_units and __nvmev_proc_flush: the simple timing model, by IO units that serve in turn.
use femu_on_virt.Base.{
  ℕ, zero, suc, ◌+◌, ◌-◌, ◌/◌, ◌%◌, ◌^◌, ◌<◌, ◌≤◌, sym, subst, Bool-cases, ==_iff, inl, inr, Run,
  ok, out_of_fuel, ltb, leb, ◌==◌, if◌then◌else◌, update, w32, inc32, add64, slt32, dec32, arith,
}

-- The part of `struct nvmev_config` that times a command.
pub record Config : Type 0 where
  pub read_delay : ℕ
  pub read_time : ℕ
  pub read_trailing : ℕ
  pub write_delay : ℕ
  pub write_time : ℕ
  pub write_trailing : ℕ
  pub nr_io_units : ℕ
  pub io_unit_shift : ℕ

abbrev pub nvme_cmd_flush : ℕ
nvme_cmd_flush = 0

abbrev pub nvme_cmd_write : ℕ
nvme_cmd_write = 1

abbrev pub nvme_cmd_read : ℕ
nvme_cmd_read = 2

abbrev pub max64 : ℕ → ℕ → ℕ
max64 a b = if ltb a b then b else a

-- The delay, the latency of a unit and the trailing time of a command.
pub record Cost : Type 0 where
  pub delay : ℕ
  pub latency : ℕ
  pub trailing : ℕ

unfoldable pub command_cost : Config → ℕ → Cost
command_cost config opcode =
    if opcode == nvme_cmd_write
    then record {
      delay = config.write_delay;
      latency = config.write_time;
      trailing = config.write_trailing;
    }
    else if opcode == nvme_cmd_read
    then record {
      delay = config.read_delay;
      latency = config.read_time;
      trailing = config.read_trailing;
    }
    else record { delay = 0; latency = 0; trailing = 0 }

-- The variables of the loop.
pub record Turn : Type 0 where
  pub latest : ℕ
  pub io_unit : ℕ
  pub units_left : ℕ
  pub length : ℕ
  pub io_unit_stat : ℕ → ℕ

module _ (config : Config) (cost : Cost) where
  -- One round of the loop. `units_left` is an `int`.
  unfoldable pub unit_round : Turn → Turn
  unit_round t =
      let size = w32 (2 ^ config.io_unit_shift) in
      let latest = add64 t.latest cost.latency in
      let next = inc32 t.io_unit in
      record {
        latest = latest;
        io_unit = if leb config.nr_io_units next then 0 else next;
        units_left = dec32 t.units_left;
        length = t.length - (if ltb t.length size then t.length else size);
        io_unit_stat =
            update t.io_unit_stat t.io_unit
              (if slt32 0 t.units_left then add64 latest cost.trailing else latest);
      }

  -- `do … while (length > 0)`
  unfoldable pub unit_rounds : ℕ → Turn → Run Turn
  unit_rounds zero t = out_of_fuel
  unit_rounds (suc fuel) t =
      let t' = unit_round t in
      let rest = unit_rounds fuel t' in if t'.length == 0 then ok t' else rest

unfoldable pub first_turn : Config → ℕ → ℕ → ℕ → ℕ → (ℕ → ℕ) → Turn
first_turn config opcode lba length nsecs_start io_unit_stat =
    let size = w32 (2 ^ config.io_unit_shift) in
    let unit = w32 (lba / 2 ^ (config.io_unit_shift - 9) % config.nr_io_units) in
    let wanted = w32 (length + size - 1) / size in
    record {
      latest = add64 (max64 nsecs_start (io_unit_stat unit)) (command_cost config opcode).delay;
      io_unit = unit;
      units_left = if ltb config.nr_io_units wanted then config.nr_io_units else wanted;
      length = length;
      io_unit_stat = io_unit_stat;
    }

-- Ends with the time of completion in `latest`.
unfoldable pub schedule_io_units : ℕ → Config → ℕ → ℕ → ℕ → ℕ → (ℕ → ℕ) → Run Turn
schedule_io_units fuel config opcode lba length nsecs_start io_unit_stat =
    unit_rounds config (command_cost config opcode) fuel
      (first_turn config opcode lba length nsecs_start io_unit_stat)

unfoldable pub proc_flush : ℕ → (ℕ → ℕ) → ℕ
proc_flush zero io_unit_stat = 0
proc_flush (suc n) io_unit_stat = max64 (proc_flush n io_unit_stat) (io_unit_stat n)

-- A flush ends no sooner than the work of any unit, and as soon as the last one.
flush-bound :
    (n : ℕ) (io_unit_stat : ℕ → ℕ) (i : ℕ) → i < n → io_unit_stat i ≤ proc_flush n io_unit_stat
unfolding proc_flush
flush-bound zero stat i h = absurd (omega arith)
flush-bound (suc n) stat i h = elim (Bool-cases (i == n)) [
  | inl e ↦ subst (λ j. stat j ≤ proc_flush (suc n) stat) (sym ((==_iff _ _).0 e)) (ground arith)
  | inr e ↦ ground (arith, flush-bound n stat i (ground arith))
]
