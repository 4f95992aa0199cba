-- ===== src/Prelude/Families.antt =====
-- Values for each of `n` threads: an update of one, and the sum of a weight over all.
use Prim.Native.Nat.{ℕ, zero, suc, ◌+◌, ◌*◌, ◌≤◌, ◌<◌}
use mathlib.Core.Path.{◌≡◌, refl}
use mathlib.Core.Logic.{◌≢◌, inl, inr}
use native.Mathlib.Decide.{dec_lt, ℕ_discrete}
use native.Mathlib.Omega.{arith}
use swarm_runtime.Prelude.Tests.{◌==◌, if◌then◌else◌, Bool-cases}

module _ {ℓ} {A : Type ℓ} where
  abbrev pub update : (ℕ → A) → ℕ → A → ℕ → A
  update f i a j = if i == j then a else f j

  pub update_case {κ} :
      (P : A → Type κ) (f : ℕ → A) (i : ℕ) (a : A) (j : ℕ) → P a → P (f j) → P (update f i a j)
  update_case P f i a j changed kept = elim (Bool-cases (i == j)) [
    | inl same ↦ rw same changed
    | inr other ↦ rw other kept
  ]

  pub update_here : (f : ℕ → A) (i : ℕ) (a : A) → update f i a i ≡ a
  update_here f i a = ground arith

  pub update_other : (f : ℕ → A) (i j : ℕ) (a : A) → j ≢ i → update f i a j ≡ f j
  update_other f i j a ne = ground arith

module _ {ℓ} {A : Type ℓ} (weight : A → ℕ) where
  unfoldable pub total : ℕ → (ℕ → A) → ℕ
  total zero f = 0
  total (suc n) f = weight (f n) + total n f

  total-update_above : (n i : ℕ) (f : ℕ → A) (a : A) → n ≤ i → total n (update f i a) ≡ total n f
  unfolding total
  total-update_above zero i f a h = refl
  total-update_above (suc n) i f a h = ground (arith, total-update_above n i f a)

  -- An update moves the sum by what it moves the weight of its thread.
  pub total-update :
      (n i : ℕ) (f : ℕ → A) (a : A)
      → i < n
      → total n (update f i a) + weight (f i) ≡ total n f + weight a
  unfolding total
  total-update zero i f a h = absurd (omega arith)
  total-update (suc n) i f a h = elim (Bool-cases (i == n)) [
    | inl last ↦ ground (arith, total-update_above n i f a)
    | inr before ↦ ground (arith, total-update n i f a)
  ]

  pub total_bound : (m n : ℕ) (f : ℕ → A) → ((i : ℕ) → weight (f i) ≤ m) → total n f ≤ n * m
  unfolding total
  total_bound m zero f h = omega arith
  total_bound m (suc n) f h = let ih = total_bound m n f h in omega (arith, h n)

  pub total_zero : (n : ℕ) (f : ℕ → A) → ((i : ℕ) → i < n → weight (f i) ≡ 0) → total n f ≡ 0
  unfolding total
  total_zero zero f h = refl
  total_zero (suc n) f h =
      let ih = total_zero n f (λ i lt. h i (omega arith)) in omega (arith, h n (omega arith))

  -- One weight is at most the sum.
  pub total_at : (n : ℕ) (f : ℕ → A) (i : ℕ) → i < n → weight (f i) ≤ total n f
  unfolding total
  total_at zero f i lt = absurd (omega arith)
  total_at (suc n) f i lt = elim (ℕ_discrete i n) [
    | yes last ↦ rw last (omega arith)
    | no other ↦ let ih = total_at n f i (omega arith) in omega arith
  ]

  -- A sum that is not zero has a thread whose weight is not zero.
  pub total_found : (n : ℕ) (f : ℕ → A) → 0 < total n f → (i : ℕ) × (i < n) × (0 < weight (f i))
  unfolding total
  total_found zero f h = absurd (omega arith)
  total_found (suc n) f h = elim (dec_lt 0 (weight (f n))) [
    | yes last ↦ (n, omega arith, last)
    | no none_last ↦ let (i, lt, found) = total_found n f (omega arith) in (i, omega arith, found)
  ]
