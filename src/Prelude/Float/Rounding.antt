-- ===== src/Prelude/Float/Rounding.antt =====
-- Rounding to 24 bits: its order and its error.
use native.Mathlib.Omega.{pow_step}
use swarm_runtime.Prelude.{
  ◌∙◌, ℕ, zero, suc, ◌+◌, ◌*◌, ◌/◌, ◌^◌, ◌≤◌, ◌<◌, ◌≡◌, ◌⊎◌, inl, inr, refl, Bool, true, false, ltb,
  arith, Bool-cases,
}
use swarm_runtime.Prelude.Float.{
  Rest, exact, below, half, above, shift_rest, is_odd, to_even, round, round_shifted,
}

-- The order of what was cut off.
abbrev pub rank : Rest → ℕ
rank exact = 0
rank below = 1
rank half = 2
rank above = 3

-- One number with its rest is at most another.
abbrev pub Upto : ℕ → Rest → ℕ → Rest → Type 0
Upto m r n s = (m < n) ⊎ ((m ≡ n) × (rank r ≤ rank s))

shift_rest-rank :
    (b : Bool) (r s : Rest) → rank r ≤ rank s → rank (shift_rest b r) ≤ rank (shift_rest b s)
shift_rest-rank b r s h = ground arith

even_rank : (r : Rest) → rank (shift_rest false r) ≤ 1
even_rank r = ground arith

odd_rank : (r : Rest) → 2 ≤ rank (shift_rest true r)
odd_rank r = ground arith

split : {m n a b : ℕ} → m ≤ n → a ≤ 1 → 2 ≤ b → (m < n) ⊎ ((m ≡ n) × (a ≤ b))
split h a b = ground arith

halve-Upto :
    (m n : ℕ) (r s : Rest)
    → Upto m r n s
    → Upto (m / 2) (shift_rest (is_odd m) r) (n / 2) (shift_rest (is_odd n) s)
halve-Upto m n r s (inr (e, h)) = inr (omega arith, rw e (shift_rest-rank (is_odd n) r s h))
halve-Upto m n r s (inl lt) = elim (Bool-cases (is_odd m)) [
  | inl odd ↦ inl (ground arith)
  | inr even ↦ elim (Bool-cases (is_odd n)) [
    | inr even' ↦ inl (ground arith)
    | inl odd ↦ rw (even, odd) (split (omega arith) (even_rank r) (odd_rank s))
  ]
]

to_even_le : (n : ℕ) (r : Rest) → (n ≤ to_even n r) × (to_even n r ≤ suc n)
to_even_le n r = ground arith

rank-to_even : (n : ℕ) (r s : Rest) → rank r ≤ rank s → to_even n r ≤ to_even n s
rank-to_even n r s h = ground arith

to_even_mono : (m n : ℕ) (r s : Rest) → Upto m r n s → to_even m r ≤ to_even n s
to_even_mono m n r s (inl lt) =
    let up = (to_even_le m r).1 in let low = (to_even_le n s).0 in omega arith
to_even_mono m n r s (inr (e, h)) = rw e (rank-to_even n r s h)

-- Below 24 bits at most 2^24 comes out; from 2^23 on, no less than went in stays above it.
pub round_small : (fuel n : ℕ) (r : Rest) → n < 2 ^ 24 → round fuel n r ≡ to_even n r
unfolding round
round_small zero n r h = refl
round_small (suc fuel) n r h = ground arith

round_large :
    (fuel n : ℕ) (r : Rest)
    → 2 ^ 24 ≤ n
    → round (suc fuel) n r ≡ 2 * round fuel (n / 2) (shift_rest (is_odd n) r)
unfolding round
round_large fuel n r h = ground arith

round_floor : (fuel n : ℕ) (r : Rest) → 2 ^ 23 ≤ n → 2 ^ 23 ≤ round fuel n r
unfolding round
round_floor zero n r h = let low = (to_even_le n r).0 in omega arith
round_floor (suc fuel) n r h =
    let low = (to_even_le n r).0 in
    let ih = round_floor fuel (n / 2) (shift_rest (is_odd n) r) in ground arith

pub round_mono : (fuel m n : ℕ) (r s : Rest) → Upto m r n s → round fuel m r ≤ round fuel n s
unfolding round
round_mono zero m n r s h = to_even_mono m n r s h
round_mono (suc fuel) m n r s h = elim (Bool-cases (ltb n (2 ^ 24))) [
  | inl n_small ↦
      let m_small : m < 2 ^ 24 = ground arith in
      rw (round_small (suc fuel) m r m_small, n_small) (to_even_mono m n r s h)
  | inr n_large ↦
      let low = round_floor fuel (n / 2) (shift_rest (is_odd n) s) (ground arith) in
      elim (Bool-cases (ltb m (2 ^ 24))) [
        | inl m_small ↦ let up = (to_even_le m r).1 in rw (n_large, m_small) (ground arith)
        | inr m_large ↦
            let ih = round_mono fuel (m / 2) (n / 2) _ _ (halve-Upto m n r s h) in
            rw (n_large, m_large) (omega arith)
      ]
]

pub round_excess : (fuel n : ℕ) (r : Rest) → 2 ^ 23 ≤ n → round fuel n r * 2 ^ 23 ≤ n * (2 ^ 23 + 1)
unfolding round
round_excess zero n r h = let up = (to_even_le n r).1 in omega arith
round_excess (suc fuel) n r h =
    let up = (to_even_le n r).1 in
    elim (Bool-cases (ltb n (2 ^ 24))) [
      | inl small ↦ rw small (omega arith)
      | inr large ↦
          let ge : 2 ^ 23 ≤ n / 2 = ground arith in
          let ih = round_excess fuel (n / 2) (shift_rest (is_odd n) r) ge in rw large (omega arith)
    ]

pub round_shifted_mono :
    (k m n : ℕ) (r s : Rest) → Upto m r n s → round_shifted k m r ≤ round_shifted k n s
unfolding round_shifted
round_shifted_mono zero m n r s h = round_mono 300 m n r s h
round_shifted_mono (suc k) m n r s h =
    round_shifted_mono k (m / 2) (n / 2) _ _ (halve-Upto m n r s h)

double : (a n b : ℕ) → b ≡ 2 * a → n * b ≡ 2 * (n * a)
double a n b h = grind arith

-- Cutting off bits that are zero is exact.
pub round_shifted-exact : (k n : ℕ) → round_shifted k (n * 2 ^ k) exact ≡ round 300 n exact
unfolding round_shifted
round_shifted-exact zero n = let e : n * 2 ^ 0 ≡ n = omega arith in rw e refl
round_shifted-exact (suc k) n =
    let p = double (2 ^ k) n (2 ^ suc k) (pow_step 2 k) in
    let h : (n * 2 ^ suc k) / 2 ≡ n * 2 ^ k = omega arith in
    let e : is_odd (n * 2 ^ suc k) ≡ false = ground arith in rw (h, e) (round_shifted-exact k n)

-- Fuel for the bits above the 24 that stay is enough: more changes nothing.
round_fuel : (fuel n : ℕ) (r : Rest) → n < 2 ^ 24 * 2 ^ fuel → round (suc fuel) n r ≡ round fuel n r
unfolding round
round_fuel zero n r h = let e : n < 2 ^ 24 = omega arith in ground arith
round_fuel (suc fuel) n r h =
    let p = pow_step 2 fuel in
    let ih = round_fuel fuel (n / 2) (shift_rest (is_odd n) r) (omega arith) in ground arith

-- A number of 24 bits with zeros behind it is not changed.
pub round-exact : (fuel s m : ℕ) → m < 2 ^ 24 → s ≤ fuel → round fuel (m * 2 ^ s) exact ≡ m * 2 ^ s
round-exact fuel zero m h le =
    let e : m * 2 ^ 0 ≡ m = omega arith in rw e (round_small fuel m exact h)
round-exact zero (suc s) m h le = absurd (omega arith)
round-exact (suc fuel) (suc s) m h le =
    let p = double (2 ^ s) m (2 ^ suc s) (pow_step 2 s) in
    let half_of : (m * 2 ^ suc s) / 2 ≡ m * 2 ^ s = omega arith in
    let even : is_odd (m * 2 ^ suc s) ≡ false = ground arith in
    let ih = round-exact fuel s m h (omega arith) in
    elim (Bool-cases (ltb (m * 2 ^ suc s) (2 ^ 24))) [
      | inl small ↦ round_small (suc fuel) (m * 2 ^ suc s) exact (ground arith)
      | inr large ↦
          round_large fuel (m * 2 ^ suc s) exact (ground arith)
          ∙ rw (half_of, even, ih) (omega arith)
    ]
