-- ===== src/State/Keys/Decimal.antt =====
-- The zero-padded decimal print of crates/af-swarm-state/src/lib.rs (`{seq:020}`): its length and the
-- byte order of its digits.
use swarm_runtime.Prelude.{
  ℕ, zero, suc, ◌+◌, ◌-◌, ◌/◌, ◌%◌, ◌^◌, ◌<◌, ◌≡◌, refl, ◌∙◌, [], ◌∷◌, ◌++◌, inl, inr, Bytes, arith,
  ltb, ◌==◌, if◌then◌else◌, Bool-cases, length, replicate, replicate_cons, lt_bytes, true, false,
  ==_iff,
}
use native.Mathlib.Nat.{pow-suc}
use swarm_runtime.State.Keys.{decimal_onto, zero_padded}

-- The last `k` digits of `n`, in front of `out`.
unfoldable pub digits : ℕ → ℕ → Bytes → Bytes
digits zero n out = out
digits (suc k) n out = digits k (n / 10) ((b'0' + n % 10) ∷ out)

digits_zero : (k : ℕ) (out : Bytes) → digits k 0 out ≡ replicate k b'0' ++ out
unfolding digits
digits_zero zero out = refl
digits_zero (suc k) out = digits_zero k (b'0' ∷ out) ∙ replicate_cons k b'0' out

pow_ten-suc : (k n : ℕ) → n < 10 ^ suc k → n / 10 < 10 ^ k
pow_ten-suc k n h = omega (arith, pow-suc 10 k)

abbrev padded_onto : ℕ → Bytes → Bytes → Bytes
padded_onto width out shown = replicate (width + length out - length shown) b'0' ++ shown

-- The round that prints the last digit left.
padded_last :
    (k n fuel : ℕ) (out : Bytes)
    → n / 10 ≡ 0
    → padded_onto (suc k) out (decimal_onto (suc fuel) n out) ≡ digits (suc k) n out
unfolding decimal_onto digits
padded_last k n fuel out done =
    rw (done, digits_zero)
      (let width : suc k + length out - suc (length out) ≡ k = omega arith in rw width)

-- A round with digits left.
decimal_onto_more :
    (n fuel : ℕ) (out : Bytes)
    → (n / 10 == 0) ≡ false
    → decimal_onto (suc fuel) n out ≡ decimal_onto fuel (n / 10) ((b'0' + n % 10) ∷ out)
unfolding decimal_onto
decimal_onto_more n fuel out more = rw more

padded_more :
    (k n fuel : ℕ) (out : Bytes)
    → (n / 10 == 0) ≡ false
    → padded_onto
        (suc k)
        ((b'0' + n % 10) ∷ out)
        (decimal_onto fuel (n / 10) ((b'0' + n % 10) ∷ out))
      ≡ digits (suc k) (n / 10) ((b'0' + n % 10) ∷ out)
    → padded_onto (suc (suc k)) out (decimal_onto (suc fuel) n out) ≡ digits (suc (suc k)) n out
unfolding digits
padded_more k n fuel out more ih =
    let width : suc (suc k) + length out ≡ suc k + suc (length out) = omega arith in
    rw (decimal_onto_more n fuel out more, width) ih

padded_onto-decimal_onto :
    (k n fuel : ℕ) (out : Bytes)
    → n < fuel
    → n < 10 ^ suc k
    → padded_onto (suc k) out (decimal_onto fuel n out) ≡ digits (suc k) n out
padded_onto-decimal_onto k n zero out lt fits = absurd (omega arith)
padded_onto-decimal_onto zero n (suc fuel) out lt fits = padded_last zero n fuel out (omega arith)
padded_onto-decimal_onto (suc k) n (suc fuel) out lt fits = elim (Bool-cases (n / 10 == 0)) [
  | inl done ↦ padded_last (suc k) n fuel out ((==_iff (n / 10) 0).0 done)
  | inr more ↦ padded_more k n fuel out more (
      padded_onto-decimal_onto k (n / 10) fuel ((b'0' + n % 10) ∷ out) (ground arith)
        (pow_ten-suc (suc k) n fits))
]

pub zero_padded-eq-digits : (k n : ℕ) → n < 10 ^ suc k → zero_padded (suc k) n ≡ digits (suc k) n []
unfolding zero_padded
zero_padded-eq-digits k n fits =
    let width : suc k + 0 ≡ suc k = omega arith in
    rw width at (padded_onto-decimal_onto k n (suc n) [] (omega arith) fits)

-- Fixed-width prints compare as numbers, and equal numbers leave the rest to decide.
pub lt_bytes-digits :
    (k m n : ℕ) (s t : Bytes)
    → m < 10 ^ k
    → n < 10 ^ k
    → lt_bytes (digits k m s) (digits k n t)
      ≡ (if ltb m n then true else if ltb n m then false else lt_bytes s t)
unfolding digits
lt_bytes-digits zero m n s t hm hn = ground arith
lt_bytes-digits (suc k) m n s t hm hn = ground (
  arith,
  lt_bytes-digits k (m / 10) (n / 10) ((b'0' + m % 10) ∷ s) ((b'0' + n % 10) ∷ t)
      (pow_ten-suc k m hm) (pow_ten-suc k n hn),
)
