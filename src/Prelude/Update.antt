-- ===== src/Prelude/Update.antt =====
-- A memory of numbered elements, and a store in it.
use Prim.Native.Nat.{ℕ}
use mathlib.Core.Path.{◌≡◌, refl}
use mathlib.Core.Logic.{◌≢◌}
use native.Mathlib.Omega.{arith}
use xallib.Prelude.Tests.{◌==◌, ==_iff, if◌then◌else◌}

abbrev pub update {ℓ} : {A : Type ℓ} → (ℕ → A) → ℕ → A → ℕ → A
update f k v i = if k == i then v else f i

pub update_self {ℓ} : {A : Type ℓ} (f : ℕ → A) (k : ℕ) (v : A) → update f k v k ≡ v
update_self f k v = rw ((==_iff k k).1 refl)

pub update_ne {ℓ} : {A : Type ℓ} (f : ℕ → A) (k i : ℕ) (v : A) → k ≢ i → update f k v i ≡ f i
update_ne f k i v ne = ground arith
