-- ===== src/Dispatch/Table.antt =====
-- The table of requests in flight: NVMEV_IO_PROC_INIT, __enqueue_io_req and
-- __reclaim_completed_reqs. Both lists of a table are chains of indices, ended by -1. A loop along a
-- chain runs on fuel. The BUG_ON of the free list cannot be reached behind the guard before it.
use femu_on_virt.Base.{
  ℕ, zero, suc, ◌-◌, false, ◌&&◌, ◌||◌, Run, ok, out_of_fuel, ◌>>=◌, ltb, leb, ◌==◌, if◌then◌else◌,
  update, inc32, dec32, minus_one32,
}
use femu_on_virt.Dispatch.Types.{ProcTable, ProcInfo}

abbrev pub nr_max_parallel_io : ℕ
nr_max_parallel_io = 16384

-- The part of `struct nvmev_dev` that the table needs.
pub record Procs : Type 0 where
  pub proc_info : ℕ → ProcInfo
  pub proc_turn : ℕ
  pub nr_io_cpu : ℕ

-- The arguments of __enqueue_io_req, with the command's id and the reading of local_clock.
pub record Request : Type 0 where
  pub sqid : ℕ
  pub cqid : ℕ
  pub sq_entry : ℕ
  pub command_id : ℕ
  pub nsecs_start : ℕ
  pub nsecs_target : ℕ
  pub nsecs_enqueue : ℕ

-- kzalloc
abbrev zero_entry : ProcTable
zero_entry = record {
  sqid = 0;
  cqid = 0;
  sq_entry = 0;
  command_id = 0;
  nsecs_start = 0;
  nsecs_target = 0;
  nsecs_enqueue = 0;
  nsecs_copy_start = 0;
  nsecs_copy_done = 0;
  nsecs_cq_filled = 0;
  is_copied = false;
  is_completed = false;
  next = 0;
  prev = 0;
}

-- The table of one worker, as NVMEV_IO_PROC_INIT sets it up.
unfoldable pub init_proc_info : ProcInfo
init_proc_info = record {
  proc_table = λ i. record zero_entry {
    next =
        if suc i == nr_max_parallel_io
        then minus_one32
        else if ltb i nr_max_parallel_io
        then suc i
        else 0;
    prev = if ltb i nr_max_parallel_io then dec32 i else 0;
  };
  free_seq = 0;
  free_seq_end = nr_max_parallel_io - 1;
  io_seq = minus_one32;
  io_seq_end = minus_one32;
  proc_io_nsecs = 0;
}

unfoldable pub set_next : ℕ → ℕ → ProcInfo → ProcInfo
set_next i n pi = record pi {
  proc_table = update pi.proc_table i (record (pi.proc_table i) { next = n });
}

unfoldable pub set_prev : ℕ → ℕ → ProcInfo → ProcInfo
set_prev i n pi = record pi {
  proc_table = update pi.proc_table i (record (pi.proc_table i) { prev = n });
}

-- The search from the end for the request behind which the new one goes, -1 for the head.
unfoldable pub find_place : ℕ → ProcInfo → ℕ → ℕ → Run ℕ
find_place zero pi nsecs_target curr = out_of_fuel
find_place (suc fuel) pi nsecs_target curr =
    let rest = find_place fuel pi nsecs_target (pi.proc_table curr).prev in
    if (curr == minus_one32)
      || (leb (pi.proc_table curr).nsecs_target pi.proc_io_nsecs
          || leb (pi.proc_table curr).nsecs_target nsecs_target)
    then ok curr
    else rest

-- The new entry `entry` goes to its place: at the head, at the end, or in between.
unfoldable pub link_request : ℕ → ℕ → ProcInfo → ProcInfo
unfolding set_next set_prev
link_request entry curr pi =
    if curr == minus_one32
    then record (set_next entry pi.io_seq (set_prev pi.io_seq entry pi)) { io_seq = entry }
    else if (pi.proc_table curr).next == minus_one32
    then set_next curr entry (record (set_prev entry curr pi) { io_seq_end = entry })
    else (let after = (pi.proc_table curr).next in
        set_next curr entry (set_prev after entry (set_next entry after (set_prev entry curr pi))))

unfoldable pub write_request : ℕ → Request → ProcInfo → ProcInfo
write_request entry r pi = record pi {
  proc_table = update pi.proc_table entry (record (pi.proc_table entry) {
    sqid = r.sqid;
    cqid = r.cqid;
    sq_entry = r.sq_entry;
    command_id = r.command_id;
    nsecs_start = r.nsecs_start;
    nsecs_enqueue = r.nsecs_enqueue;
    nsecs_target = r.nsecs_target;
    is_completed = false;
    is_copied = false;
    prev = minus_one32;
    next = minus_one32;
  });
}

unfoldable pub insert_request : ℕ → ℕ → ℕ → ProcInfo → Run ProcInfo
insert_request fuel entry nsecs_target pi =
    if pi.io_seq == minus_one32
    then ok (record pi { io_seq = entry; io_seq_end = entry })
    else find_place fuel pi nsecs_target pi.io_seq_end >>= λ curr. ok (link_request entry curr pi)

unfoldable pub enqueue_io_req : ℕ → Request → Procs → Run Procs
enqueue_io_req fuel r d =
    let turn = d.proc_turn in
    let pi = d.proc_info turn in
    let entry = pi.free_seq in
    let next = (pi.proc_table entry).next in
    if leb nr_max_parallel_io next
    then ok (record d { proc_info = update d.proc_info turn (record pi { free_seq = entry }) })
    else insert_request fuel entry r.nsecs_target
        (write_request entry r (record pi { free_seq = next }))
      >>= λ pi'. ok (record d {
        proc_info = update d.proc_info turn pi';
        proc_turn = if inc32 turn == d.nr_io_cpu then 0 else inc32 turn;
      })

-- The last request of the completed ones at the head, -1 if there is none.
unfoldable pub last_reclaimed : ℕ → ProcInfo → ℕ → ℕ → Run ℕ
last_reclaimed zero pi curr last = out_of_fuel
last_reclaimed (suc fuel) pi curr last =
    let pe = pi.proc_table curr in
    let rest = last_reclaimed fuel pi pe.next curr in
    if curr == minus_one32
    then ok last
    else if pe.is_completed && (pe.is_copied && leb pe.nsecs_target pi.proc_io_nsecs)
    then rest
    else ok last

-- The requests from the head to `last` go to the end of the free list.
unfoldable pub free_requests : ℕ → ProcInfo → ProcInfo
unfolding set_next set_prev
free_requests last pi =
    let first = pi.io_seq in
    let after = (pi.proc_table last).next in
    let p1 = record pi { io_seq = after } in
    let p2 = if after == minus_one32 then p1 else set_prev after minus_one32 p1 in
    let p3 = set_prev first p2.free_seq_end (set_next last minus_one32 p2) in
    record (set_next p3.free_seq_end first p3) { free_seq_end = last }

unfoldable pub reclaim_proc : ℕ → ProcInfo → Run ProcInfo
reclaim_proc fuel pi = last_reclaimed fuel pi pi.io_seq minus_one32 >>= λ last.
    ok (if last == minus_one32 then pi else free_requests last pi)

-- The loop over the workers: `k` are left, from `turn` on.
unfoldable pub reclaim_completed_reqs : ℕ → ℕ → ℕ → Procs → Run Procs
reclaim_completed_reqs fuel zero turn d = ok d
reclaim_completed_reqs fuel (suc k) turn d = reclaim_proc fuel (d.proc_info turn) >>= λ pi.
    reclaim_completed_reqs fuel k (suc turn) (record d { proc_info = update d.proc_info turn pi })
