-- ===== src/Host/Reader.antt =====
-- A completion ring, and a host that reads it: the lowest bit of `status` is the phase of an entry,
-- and an entry is new if its phase is the one that the host expects.
use femu_on_virt.Base.{
  ℕ, zero, suc, ◌+◌, ◌-◌, ◌%◌, ◌≤◌, ◌<◌, ◌≡◌, ◌≢◌, Option, none, some, List, [], ◌∷◌, length,
  get_elem?, ◌==◌, ltb, if◌then◌else◌,
}
use femu_on_virt.Dispatch.Types.{Completion}

-- The device's state of a ring.
pub record Ring : Type 0 where
  pub size : ℕ
  pub head : ℕ
  pub phase : ℕ
  pub entries : ℕ → Completion

-- The host's state: the next entry, and the phase it expects there.
pub record Reader : Type 0 where
  pub at : ℕ
  pub expected : ℕ

-- One step around a ring.
abbrev pub step_at : ℕ → ℕ → ℕ
step_at size at = if at + 1 == size then 0 else at + 1

abbrev pub step_phase : ℕ → ℕ → ℕ → ℕ
step_phase size at phase = if at + 1 == size then 1 - phase else phase

-- The command id of the next completion, if there is a new one.
unfoldable pub read : Ring → Reader → Option (ℕ × Reader)
read v r =
    if (v.entries r.at).status % 2 == r.expected
    then some (
      (v.entries r.at).command_id,
      record { at = step_at v.size r.at; expected = step_phase v.size r.at r.expected },
    )
    else none

-- The ids that the host finds when it reads until there is nothing new, in at most `fuel` reads.
unfoldable pub drain : ℕ → Ring → Reader → List ℕ
drain zero v r = []
drain (suc fuel) v r = elim (read v r) [ none ↦ [] | some found ↦ found.0 ∷ drain fuel v found.1 ]

-- The place `k` entries from the reader, and the phase it will expect there.
abbrev pub place : ℕ → Reader → ℕ → ℕ
place size r k = if ltb (r.at + k) size then r.at + k else r.at + k - size

abbrev pub tag : ℕ → Reader → ℕ → ℕ
tag size r k = if ltb (r.at + k) size then r.expected else 1 - r.expected

-- The ring holds the completions of the commands `ids`, which the host has not read.
pub record Holds (ids : List ℕ) (v : Ring) (r : Reader) : Type 0 where
  pub at : r.at < v.size
  pub expected : r.expected < 2
  pub few : length ids ≤ v.size
  pub head : v.head ≡ place v.size r (length ids)
  pub phase : v.phase ≡ tag v.size r (length ids)
  pub command :
      (k id : ℕ) → get_elem? ids k ≡ some id → (v.entries (place v.size r k)).command_id ≡ id
  pub new : (k : ℕ) → k < length ids → (v.entries (place v.size r k)).status % 2 ≡ tag v.size r k
  pub old :
      (k : ℕ)
      → length ids ≤ k
      → k < v.size
      → (v.entries (place v.size r k)).status % 2 ≡ 1 - tag v.size r k

-- The device completes the command `id`: it writes the entry at its head, and moves on.
pub record Pushed (id : ℕ) (v v' : Ring) : Type 0 where
  pub size : v'.size ≡ v.size
  pub head : v'.head ≡ step_at v.size v.head
  pub phase : v'.phase ≡ step_phase v.size v.head v.phase
  pub command : (v'.entries v.head).command_id ≡ id
  pub tag : (v'.entries v.head).status % 2 ≡ v.phase
  pub other : (j : ℕ) → j ≢ v.head → v'.entries j ≡ v.entries j
