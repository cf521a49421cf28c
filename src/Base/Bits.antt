-- ===== src/Base/Bits.antt =====
-- The binary digits of a number, and what the native operations do to them.
use Prim.Native.Nat.{
  ℕ, zero, suc, ◌+◌, ◌-◌, ◌*◌, ◌/◌, ◌%◌, ◌^◌, ◌≤◌, ◌<◌, min, max, digits, bitwise, bit_and, bit_or,
  bit_and-bitwise, bit_or-bitwise,
}
use mathlib.Core.Path.{◌≡◌, refl, sym, ◌∙◌, ap}
use native.Mathlib.Nat.{div-add-mod, mod-lt, mod-eq_of_lt, mul-add-mod_self_left}
use native.Mathlib.Omega.{arith}

-- Digit `k`, the lowest first.
abbrev pub digit : ℕ → ℕ → ℕ
digit zero n = n % 2
digit (suc k) n = digit k (n / 2)

module _ (end : ℕ → ℕ) (op : ℕ → ℕ → ℕ) where
  abbrev after : ℕ → ℕ → ℕ → ℕ
  after count a b = digits end op count a b

  -- Any two counts that reach the end of the first number give the same digits.
  counts : (m n b a : ℕ) → a ≤ m → a ≤ n → after m a b ≡ after n a b
  counts m n b zero h k = ended m ∙ sym (ended n)
    where
      ended : (count : ℕ) → after count 0 b ≡ end b
      ended zero = refl
      ended (suc count) = refl
  counts zero n b (suc a) h k = absurd (omega arith)
  counts (suc m) zero b (suc a) h k = absurd (omega arith)
  counts (suc m) (suc n) b (suc a) h k =
      let half = suc a / 2 in
      ap (λ r. r * 2 + op (suc a % 2) (b % 2)) (counts m n (b / 2) half (omega arith) (omega arith))

  -- The lowest digit and the others.
  split :
      (a b : ℕ)
      → end b ≡ end (b / 2) * 2 + op 0 (b % 2)
      → bitwise end op a b ≡ bitwise end op (a / 2) (b / 2) * 2 + op (a % 2) (b % 2)
  split zero b e = e
  split (suc a) b e =
      ap (λ r. r * 2 + op (suc a % 2) (b % 2))
        (counts a (suc a / 2) (b / 2) (suc a / 2) (omega arith) (omega arith))

pub bit_and-split : (a b : ℕ) → bit_and a b ≡ bit_and (a / 2) (b / 2) * 2 + min (a % 2) (b % 2)
bit_and-split a b = simp bit_and-bitwise (split (λ y. 0) min a b (omega arith))

pub bit_or-split : (a b : ℕ) → bit_or a b ≡ bit_or (a / 2) (b / 2) * 2 + max (a % 2) (b % 2)
bit_or-split a b = simp bit_or-bitwise (split (λ y. y) max a b (omega arith))

pub digit_lt : (k n : ℕ) → digit k n < 2
digit_lt zero n = omega arith
digit_lt (suc k) n = digit_lt k (n / 2)

pub digit-bit_and : (k a b : ℕ) → digit k (bit_and a b) ≡ min (digit k a) (digit k b)
digit-bit_and zero a b = omega (arith, bit_and-split a b)
digit-bit_and (suc k) a b =
    let half : bit_and a b / 2 ≡ bit_and (a / 2) (b / 2) = omega (arith, bit_and-split a b) in
    ap (digit k) half ∙ digit-bit_and k (a / 2) (b / 2)

pub digit-bit_or : (k a b : ℕ) → digit k (bit_or a b) ≡ max (digit k a) (digit k b)
digit-bit_or zero a b = omega (arith, bit_or-split a b)
digit-bit_or (suc k) a b =
    let half : bit_or a b / 2 ≡ bit_or (a / 2) (b / 2) = omega (arith, bit_or-split a b) in
    ap (digit k) half ∙ digit-bit_or k (a / 2) (b / 2)

-- The digits of `~m` in a word of `w` bits.
pub digit_complement : (k w m : ℕ) → k < w → m < 2 ^ w → digit k (2 ^ w - 1 - m) ≡ 1 - digit k m
digit_complement k zero m h lt = absurd (omega arith)
digit_complement zero (suc w) m h lt = omega arith
digit_complement (suc k) (suc w) m h lt =
    ap (digit k) half ∙ digit_complement k w (m / 2) (omega arith) (omega arith)
  where
    half : (2 ^ suc w - 1 - m) / 2 ≡ 2 ^ w - 1 - m / 2
    half = omega arith

two_pow_pos : (w : ℕ) → 0 < 2 ^ w
two_pow_pos zero = omega arith
two_pow_pos (suc w) = omega (arith, two_pow_pos w)

double_mul : (p q : ℕ) → 2 * p * q ≡ 2 * (p * q)
double_mul p q = grind arith

-- A word cut to `w` bits: its half is the half of the number, cut to one bit less.
cut_parts : (w n : ℕ) → (n % 2 ^ suc w % 2 ≡ n % 2) × (n % 2 ^ suc w / 2 ≡ n / 2 % 2 ^ w)
cut_parts w n =
    let q = n / 2 ^ suc w in
    let r = n % 2 ^ suc w in
    let t = 2 ^ w * q in
    let pow : 2 ^ suc w ≡ 2 * 2 ^ w = omega arith in
    let double : 2 ^ suc w * q ≡ 2 * t = ap (λ x. x * q) pow ∙ double_mul (2 ^ w) q in
    let whole : n ≡ 2 * t + r = sym (div-add-mod n (2 ^ suc w)) ∙ ap (λ x. x + r) double in
    let small : r < 2 ^ suc w = mod-lt n (two_pow_pos (suc w)) in
    let lower : r / 2 < 2 ^ w = omega (arith, small) in
    let half : n / 2 ≡ t + r / 2 = omega (arith, whole) in
    (
      omega (arith, whole),
      sym (mod-eq_of_lt lower)
          ∙ sym (mul-add-mod_self_left (2 ^ w) q (r / 2))
          ∙ ap (λ x. x % 2 ^ w) (sym half),
    )

pub digit_cut : (k w n : ℕ) → k < w → digit k (n % 2 ^ w) ≡ digit k n
digit_cut k zero n h = absurd (omega arith)
digit_cut zero (suc w) n h = (cut_parts w n).0
digit_cut (suc k) (suc w) n h = ap (digit k) (cut_parts w n).1 ∙ digit_cut k w (n / 2) (omega arith)
