-- ===== src/Dispatch/Doorbell.antt =====
-- The entries of a ring that a doorbell announces, in nvmev_proc_io_sq and nvmev_proc_admin_sq.
use femu_on_virt.Base.{ℕ, zero, suc, ◌+◌, ◌-◌, ◌^◌, ◌<◌, ◌≡◌, ◌≢◌, arith, ltb, if◌then◌else◌}
use femu_on_virt.Dispatch.Commands.{next_entry, num_proc}

-- The entry that the loop reaches in its `k`-th round.
abbrev pub entry_after : ℕ → ℕ → ℕ → ℕ
entry_after size start zero = start
entry_after size start (suc k) = next_entry size (entry_after size start k)

entry_after-eq :
    (size start k : ℕ)
    → size < 2 ^ 31
    → start < size
    → k < size
    → entry_after size start k ≡ (if ltb (start + k) size then start + k else start + k - size)
unfolding next_entry
entry_after-eq size start zero h i j = ground arith
entry_after-eq size start (suc k) h i j =
    ground (arith, entry_after-eq size start k h i (omega arith))

-- The loop visits the entries from the old doorbell up to the new one, each once.
pub record IsAnnounced (size new_db old_db : ℕ) : Type 0 where
  pub few : num_proc size new_db old_db < size
  pub ends : entry_after size old_db (num_proc size new_db old_db) ≡ new_db
  pub before : (k : ℕ) → k < num_proc size new_db old_db → entry_after size old_db k ≢ new_db
  pub apart :
      (j k : ℕ)
      → j < k
      → k < num_proc size new_db old_db
      → entry_after size old_db j ≢ entry_after size old_db k

num_proc-eq :
    (size new_db old_db : ℕ)
    → size < 2 ^ 31
    → new_db < size
    → old_db < size
    → num_proc size new_db old_db
      ≡ (if ltb new_db old_db then new_db + size - old_db else new_db - old_db)
unfolding num_proc
num_proc-eq size new_db old_db h i j = ground arith

-- For a submission queue of fewer than 2^31 entries and two doorbell values within it,
-- nvmev_proc_io_sq counts fewer rounds than the queue has entries; the rounds visit the entries
-- from the old doorbell on, around the end of the ring, no entry twice and none at the new
-- doorbell, and end at the new doorbell.
pub num_proc-IsAnnounced :
    (size new_db old_db : ℕ)
    → size < 2 ^ 31
    → new_db < size
    → old_db < size
    → IsAnnounced size new_db old_db
num_proc-IsAnnounced size new_db old_db h i j =
    let n = num_proc-eq size new_db old_db h i j in
    let few : num_proc size new_db old_db < size = ground (arith, n) in
    record {
      few = few;
      ends = ground (arith, n, entry_after-eq size old_db (num_proc size new_db old_db) h j few);
      before = λ k lt. ground (arith, n, entry_after-eq size old_db k h j (omega (arith, few)));
      apart = λ a b lt lt'. ground (
        arith,
        n,
        entry_after-eq size old_db a h j (omega (arith, few)),
        entry_after-eq size old_db b h j (omega (arith, few)),
      );
    }
