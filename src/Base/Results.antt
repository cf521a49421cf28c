-- ===== src/Base/Results.antt =====
-- The result of code that may fault (a NULL dereference in the kernel) or that loops.
use mathlib.Core.Path.{◌≡◌, refl}
use mathlib.Core.Bool.{Bool, true, false}
use femu_on_virt.Base.Test.{if◌then◌else◌}

pub data Run {ℓ} (A : Type ℓ) : Type ℓ where
  fault : Run A
  out_of_fuel : Run A
  ok : A → Run A

pub ok-injective {ℓ} : {A : Type ℓ} {a b : A} → ok a ≡ ok b → a ≡ b
ok-injective e = cc

infixl 5 ◌>>=◌
abbrev pub ◌>>=◌ {ℓ κ} : {A : Type ℓ} {B : Type κ} → Run A → (A → Run B) → Run B
fault >>= next = fault
out_of_fuel >>= next = out_of_fuel
ok a >>= next = next a

-- Inversion of a successful bind, for proofs where the parts stay shut.
pub >>=-eq-ok {ℓ κ} :
    {A : Type ℓ} {B : Type κ} (m : Run A) (next : A → Run B) {b : B}
    → (m >>= next) ≡ ok b
    → (a : A) × (m ≡ ok a) × (next a ≡ ok b)
>>=-eq-ok (ok a) next h = (a, refl, h)
>>=-eq-ok fault next h = cc
>>=-eq-ok out_of_fuel next h = cc

-- A guarded computation that succeeds has passed its guard.
pub guard-eq-ok {ℓ} :
    {A : Type ℓ} (b : Bool) (m : Run A) {a : A}
    → (if b then fault else m) ≡ ok a
    → (b ≡ false) × (m ≡ ok a)
guard-eq-ok true m h = cc
guard-eq-ok false m h = (refl, h)
