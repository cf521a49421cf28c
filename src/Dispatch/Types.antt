-- ===== src/Dispatch/Types.antt =====
-- The structures of nvmev.h that io.c keeps. An `unsigned int` and an `int` are 32-bit patterns; the
-- fields that only PERF_DEBUG writes are kept, and never read.
use femu_on_virt.Base.{ℕ, Bool}

-- struct nvmev_proc_table: one request in flight.
pub record ProcTable : Type 0 where
  pub sqid : ℕ
  pub cqid : ℕ
  pub sq_entry : ℕ
  pub command_id : ℕ
  pub nsecs_start : ℕ
  pub nsecs_target : ℕ
  pub nsecs_enqueue : ℕ
  pub nsecs_copy_start : ℕ
  pub nsecs_copy_done : ℕ
  pub nsecs_cq_filled : ℕ
  pub is_copied : Bool
  pub is_completed : Bool
  pub next : ℕ
  pub prev : ℕ

-- struct nvmev_proc_info, less the thread and its name.
pub record ProcInfo : Type 0 where
  pub proc_table : ℕ → ProcTable
  pub free_seq : ℕ
  pub free_seq_end : ℕ
  pub io_seq : ℕ
  pub io_seq_end : ℕ
  pub proc_io_nsecs : ℕ

-- struct nvmev_sq_stat
pub record SqStat : Type 0 where
  pub nr_dispatched : ℕ
  pub nr_dispatch : ℕ
  pub nr_in_flight : ℕ
  pub max_nr_in_flight : ℕ
  pub total_io : ℕ

-- struct nvme_completion
pub record Completion : Type 0 where
  pub result : ℕ
  pub rsvd : ℕ
  pub command_id : ℕ
  pub sq_id : ℕ
  pub sq_head : ℕ
  pub status : ℕ

-- struct nvmev_completion_queue, less its locks.
pub record CompletionQueue : Type 0 where
  pub qid : ℕ
  pub irq_vector : ℕ
  pub irq_enabled : Bool
  pub interrupt_ready : Bool
  pub phys_contig : Bool
  pub queue_size : ℕ
  pub phase : ℕ
  pub cq_head : ℕ
  pub cq_tail : ℕ
  pub cq : ℕ → Completion
