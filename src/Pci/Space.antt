-- ===== src/Pci/Space.antt =====
-- What a write to the configuration space leaves there.
use femu_on_virt.Base.{
  ℕ, zero, suc, ◌+◌, ◌-◌, ◌*◌, ◌/◌, ◌%◌, ◌^◌, ◌≤◌, ◌<◌, ◌≡◌, ◌⊎◌, inl, inr, refl, sym, ◌∙◌, ap,
  some, ◌==◌, if◌then◌else◌, update, update-at, update-other, arith, digit, digit-bit_and,
  digit-bit_or, digit_complement, digit_cut, digit_lt,
}
use Prim.Native.Nat.{bit_and}
use native.Mathlib.Decide.{dec_lt}
use femu_on_virt.Pci.Config.{
  Space, load, store, masked, header_mask, msix_mask, write_mask, pci_read, pci_write,
}

-- A write leaves the bytes before and behind it.
store_before :
    (size val : ℕ) (bytes : ℕ → ℕ) (at j : ℕ) → j < at → store size val bytes at j ≡ bytes j
unfolding store
store_before zero val bytes at j h = refl
store_before (suc size) val bytes at j h =
    store_before size (val / 2 ^ 8) (update bytes at (val % 2 ^ 8)) (at + 1) j (omega arith)
    ∙ update-other bytes at (val % 2 ^ 8) j (omega arith)

store_behind :
    (size val : ℕ) (bytes : ℕ → ℕ) (at j : ℕ) → at + size ≤ j → store size val bytes at j ≡ bytes j
unfolding store
store_behind zero val bytes at j h = refl
store_behind (suc size) val bytes at j h =
    store_behind size (val / 2 ^ 8) (update bytes at (val % 2 ^ 8)) (at + 1) j (omega arith)
    ∙ update-other bytes at (val % 2 ^ 8) j (omega arith)

low_digits : (k n l : ℕ) → k < 8 → digit k (n % 2 ^ 8 + 2 ^ 8 * l) ≡ digit k n
low_digits k n l h =
    let same : (n % 2 ^ 8 + 2 ^ 8 * l) % 2 ^ 8 ≡ n % 2 ^ 8 = omega arith in
    sym (digit_cut k 8 (n % 2 ^ 8 + 2 ^ 8 * l) h) ∙ ap (digit k) same ∙ digit_cut k 8 n h

high_digits : (k n : ℕ) → 8 ≤ k → digit k n ≡ digit (k - 8) (n / 2 ^ 8)
high_digits k n h = ap (λ x. digit x n) split ∙ ap (digit (k - 8)) bytes
  where
    split : k ≡ suc (suc (suc (suc (suc (suc (suc (suc (k - 8))))))))
    split = omega arith

    bytes : n / 2 / 2 / 2 / 2 / 2 / 2 / 2 / 2 ≡ n / 2 ^ 8
    bytes = omega arith

-- Word by word, what was written is read again.
load-store :
    (size k val : ℕ) (bytes : ℕ → ℕ) (at junk : ℕ)
    → k < 8 * size
    → digit k (load size (store size val bytes at) at junk) ≡ digit k val
unfolding load store
load-store zero k val bytes at junk h = absurd (omega arith)
load-store (suc size) k val bytes at junk h =
    let new = update bytes at (val % 2 ^ 8) in
    let first : store size (val / 2 ^ 8) new (at + 1) at ≡ val % 2 ^ 8 =
      store_before size (val / 2 ^ 8) new (at + 1) at (omega arith)
      ∙ update-at bytes at (val % 2 ^ 8) in
    let others = load size (store size (val / 2 ^ 8) new (at + 1)) (at + 1) junk in
    ap (λ x. digit k (x + 2 ^ 8 * others)) first
    ∙ rest others (λ j lt. load-store size j (val / 2 ^ 8) new (at + 1) junk lt)
  where
    rest :
        (others : ℕ)
        → ((j : ℕ) → j < 8 * size → digit j others ≡ digit j (val / 2 ^ 8))
        → digit k (val % 2 ^ 8 + 2 ^ 8 * others) ≡ digit k val
    rest others ih = elim (dec_lt k 8) [
      | yes i ↦ low_digits k val others i
      | no n ↦
          let behind : (val % 2 ^ 8 + 2 ^ 8 * others) / 2 ^ 8 ≡ others = omega arith in
          high_digits k (val % 2 ^ 8 + 2 ^ 8 * others) (omega arith)
          ∙ ap (digit (k - 8)) behind
          ∙ ih (k - 8) (omega arith)
          ∙ sym (high_digits k val (omega arith))
    ]

digit-masked :
    (k mask val new : ℕ)
    → k < 32
    → mask < 2 ^ 32
    → digit k (masked mask val new) ≡ (if digit k mask == 1 then digit k new else digit k val)
unfolding masked
digit-masked k mask val new h lt =
    let kept = digit-bit_and k val (2 ^ 32 - 1 - mask) in
    let set = digit-bit_and k new mask in
    let both = digit-bit_or k (bit_and val (2 ^ 32 - 1 - mask)) (bit_and new mask) in
    ground (
      arith,
      kept,
      set,
      both,
      digit_complement k 32 mask h lt,
      digit_lt k mask,
      digit_lt k new,
      digit_lt k val,
    )

write_mask_lt : (at : ℕ) → write_mask at < 2 ^ 32
unfolding write_mask header_mask msix_mask
write_mask_lt at = ground arith

-- For an access of at most 4 bytes, to any device number: a read of the same bytes after a write
-- of `new` gives, digit by digit, that of `new` where the mask of the offset has a 1, and what the
-- bytes held before where it has a 0; and no byte before or behind the access changes.
pub pci_write-pci_read :
    (devfn at size new junk junk2 : ℕ) (s : Space)
    → size ≤ 4
    → (old r : ℕ) × (pci_read 0 at size junk s ≡ some old)
      × (pci_read 0 at size junk2 (pci_write devfn at size new junk s) ≡ some r)
      × ((k : ℕ)
          → k < 8 * size
          → digit k r ≡ (if digit k (write_mask at) == 1 then digit k new else digit k old))
      × ((j : ℕ)
          → (j < at) ⊎ (at + size ≤ j)
          → (pci_write devfn at size new junk s).bytes j ≡ s.bytes j)
unfolding pci_read pci_write
pci_write-pci_read devfn at size new junk junk2 s few =
    let old = load size s.bytes at junk in
    let val = masked (write_mask at) old new in
    (
      old,
      load size (store size val s.bytes at) at junk2,
      refl,
      refl,
      λ k lt.
          load-store size k val s.bytes at junk2 lt
          ∙ digit-masked k (write_mask at) old new (omega arith) (write_mask_lt at),
      λ j out. elim out [
        | inl before ↦ store_before size val s.bytes at j before
        | inr behind ↦ store_behind size val s.bytes at j behind
      ],
    )
