-- ===== src/Dispatch/Prp.antt =====
-- __do_perform_io: the copies between the host's pages and the storage. The host's memory is outside
-- of the driver: `prp_list i` is the i-th word at `prp2`, and the loop is the list of its memcpy calls. A list that
-- is not there (NULL) is a fault.
use femu_on_virt.Base.{
  ℕ, zero, suc, ◌+◌, ◌-◌, ◌*◌, ◌/◌, ◌%◌, ◌^◌, List, [], ◌∷◌, Run, ok, fault, out_of_fuel, ◌>>=◌,
  ltb, ◌==◌, Bool, true, false, if◌then◌else◌, w64, add64,
}

abbrev pub page_size : ℕ
page_size = 4096

-- The part of `struct nvme_rw_command` that the copy reads.
pub record PrpCommand : Type 0 where
  pub slba : ℕ
  pub length : ℕ
  pub prp1 : ℕ
  pub prp2 : ℕ

-- One memcpy: `io_size` bytes between the host page `pfn`, from `mem_offs` on, and the storage, from
-- `offset` on.
pub record Copy : Type 0 where
  pub pfn : ℕ
  pub mem_offs : ℕ
  pub offset : ℕ
  pub io_size : ℕ

-- The variables of the loop; `listed` is `paddr_list != NULL`.
pub record Cursor : Type 0 where
  pub prp_offs : ℕ
  pub prp2_offs : ℕ
  pub listed : Bool
  pub mem_offs : ℕ
  pub offset : ℕ
  pub remaining : ℕ

-- One copy from or to the page at `paddr`, and the variables behind it.
unfoldable pub copy_page : ℕ → ℕ → Bool → Cursor → Copy × Cursor
copy_page paddr prp2_offs listed c =
    let most = if ltb c.remaining page_size then c.remaining else page_size in
    let off = paddr % page_size in
    let mem_offs = if off == 0 then c.mem_offs else off in
    let io_size =
      if off == 0
      then most
      else if ltb page_size (most + mem_offs)
      then page_size - mem_offs
      else most in
    (
      record { pfn = paddr / page_size; mem_offs = mem_offs; offset = c.offset; io_size = io_size },
      record {
        prp_offs = suc c.prp_offs;
        prp2_offs = prp2_offs;
        listed = listed;
        mem_offs = mem_offs;
        offset = add64 c.offset io_size;
        remaining = c.remaining - io_size;
      },
    )

module _ (cmd : PrpCommand) (prp_list : ℕ → ℕ) where
  -- The page address of a round, and `prp2_offs` and `paddr_list != NULL` after it.
  unfoldable pub next_paddr : Cursor → Run (ℕ × ℕ × Bool)
  next_paddr c =
      if c.prp_offs == 0
      then ok (cmd.prp1, c.prp2_offs, c.listed)
      else if c.prp_offs == 1
      then (if ltb page_size c.remaining
          then ok (prp_list c.prp2_offs, suc c.prp2_offs, true)
          else ok (cmd.prp2, c.prp2_offs, c.listed))
      else if c.listed
      then ok (prp_list c.prp2_offs, suc c.prp2_offs, true)
      else fault

  -- One round of the loop.
  unfoldable pub copy_round : Cursor → Run (Copy × Cursor)
  copy_round c = next_paddr c >>= λ r. ok (copy_page r.0 r.1 r.2 c)

  unfoldable pub copy_rounds : ℕ → Cursor → Run (List Copy)
  copy_rounds zero c = out_of_fuel
  copy_rounds (suc fuel) c = elim (c.remaining == 0) [
    | true ↦ ok []
    | false ↦ copy_round c >>= λ r. copy_rounds fuel r.1 >>= λ copies. ok (r.0 ∷ copies)
  ]

  -- The variables before the loop.
  unfoldable pub first_cursor : Cursor
  first_cursor = record {
    prp_offs = 0;
    prp2_offs = 0;
    listed = false;
    mem_offs = 0;
    offset = w64 (cmd.slba * 2 ^ 9);
    remaining = (cmd.length + 1) * 2 ^ 9;
  }

  -- The copies, and the returned length.
  unfoldable pub do_perform_io : ℕ → Run (List Copy × ℕ)
  unfolding first_cursor
  do_perform_io fuel =
      copy_rounds fuel first_cursor >>= λ copies. ok (copies, (cmd.length + 1) * 2 ^ 9)
