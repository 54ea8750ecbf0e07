-- ===== src/Prelude/Spans.antt =====
-- What a function gives on a range of numbers, as a list.
use Prim.Native.Nat.{ℕ, zero, suc, ◌+◌, ◌<◌}
use mathlib.Core.Path.{◌≡◌, refl, ap, ◌∙◌}
use mathlib.Core.List.{List, [], ◌∷◌, ◌++◌}
use native.Mathlib.Omega.{arith}

-- What a function gives for `count` addresses from `first` on.
unfoldable pub span {ℓ} : {A : Type ℓ} → (ℕ → A) → ℕ → ℕ → List A
span f first zero = []
span f first (suc count) = f first ∷ span f (first + 1) count

pub span-split {ℓ} :
    {A : Type ℓ} (f : ℕ → A) (a m n : ℕ) → span f a (m + n) ≡ span f a m ++ span f (a + m) n
unfolding span
span-split f a zero n =
    let none : zero + n ≡ n = omega arith in
    let here : a ≡ a + zero = omega arith in ap (span f a) none ∙ ap (λ b. span f b n) here
span-split f a (suc m) n =
    let more : suc m + n ≡ suc (m + n) = omega arith in
    let next : a + 1 + m ≡ a + suc m = omega arith in
    let far : span f (a + 1 + m) n ≡ span f (a + suc m) n = ap (λ b. span f b n) next in
    ap (span f a) more
    ∙ ap (λ k. f a ∷ k) (span-split f (a + 1) m n ∙ ap (λ k. span f (a + 1) m ++ k) far)

-- Two functions that agree from two starts on.
pub span-same {ℓ} :
    {A : Type ℓ} (f g : ℕ → A) (a b n : ℕ)
    → ((j : ℕ) → j < n → f (a + j) ≡ g (b + j))
    → span f a n ≡ span g b n
unfolding span
span-same f g a b zero h = refl
span-same f g a b (suc n) h =
    let here : a ≡ a + 0 = omega arith in
    let there : b + 0 ≡ b = omega arith in
    let now : f a ≡ g b = ap f here ∙ h 0 (omega arith) ∙ ap g there in
    ap (λ x. x ∷ span f (a + 1) n) now
    ∙ ap (λ k. g b ∷ k)
        (span-same f g (a + 1) (b + 1) n (λ j q.
          let near : a + 1 + j ≡ a + (j + 1) = omega arith in
          let far : b + (j + 1) ≡ b + 1 + j = omega arith in
          ap f near ∙ h (j + 1) (omega arith) ∙ ap g far))

pub span-none {ℓ} : {A : Type ℓ} (f : ℕ → A) (a : ℕ) → span f a 0 ≡ []
unfolding span
span-none f a = refl

pub span-one {ℓ} : {A : Type ℓ} (f : ℕ → A) (a : ℕ) → span f a 1 ≡ f a ∷ []
unfolding span
span-one f a = refl

pub span-suc {ℓ} : {A : Type ℓ} (f : ℕ → A) (a n : ℕ) → span f a (suc n) ≡ f a ∷ span f (a + 1) n
unfolding span
span-suc f a n = refl
