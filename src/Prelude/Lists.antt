-- ===== src/Prelude/Lists.antt =====
-- What holds of every element of a list.
use mathlib.Core.List.{List, [], ◌∷◌, ◌++◌}

module _ {ℓ κ} {A : Type ℓ} where
  abbrev pub All : (A → Type κ) → List A → Type κ
  All P [] = Unit {κ}
  All P (x ∷ l) = P x × All P l

  pub All-map : (P Q : A → Type κ) (l : List A) → ((x : A) → P x → Q x) → All P l → All Q l
  All-map P Q [] f h = h
  All-map P Q (x ∷ l) f h = (f x h.0, All-map P Q l f h.1)

  pub All-append : (P : A → Type κ) (k l : List A) → All P k → All P l → All P (k ++ l)
  All-append P [] l hk hl = hl
  All-append P (x ∷ k) l hk hl = (hk.0, All-append P k l hk.1 hl)

  pub All-split : (P : A → Type κ) (k l : List A) → All P (k ++ l) → All P k × All P l
  All-split P [] l h = (tt, h)
  All-split P (x ∷ k) l h = let (hk, hl) = All-split P k l h.1 in ((h.0, hk), hl)
