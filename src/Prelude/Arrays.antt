-- ===== src/Prelude/Arrays.antt =====
-- C arrays that no bound is checked on: total functions of the index, and their update.
use Prim.Native.Nat.{ℕ}
use mathlib.Core.Path.{◌≡◌, refl}
use azalea.Prelude.Tests.{◌==◌, if◌then◌else◌, ==_refl}

-- `a[k] = v`
abbrev pub update {ℓ} : {A : Type ℓ} → (array : ℕ → A) (index : ℕ) (value : A) → ℕ → A
update a k v j = if j == k then v else a j

pub update-same {ℓ} :
    {A : Type ℓ} (array : ℕ → A) (index : ℕ) (value : A) → update array index value index ≡ value
update-same a k v = rw (==_refl k) refl
