-- ===== src/Prelude/Float.antt =====
-- IEEE 754 single precision, exactly: rounding to nearest, ties to even, with 24 bits.
pub mod Rounding
use Prim.Native.Nat.{ℕ, zero, suc, ◌*◌, ◌/◌, ◌%◌, ◌^◌, ◌-◌}
use mathlib.Core.Bool.{Bool, true, false}
use swarm_runtime.Prelude.Tests.{ltb, ◌==◌, if◌then◌else◌}

-- `fin s v` is (-1)^s * v / 2^149, where `v` has at most 24 bits beside trailing zeros.
pub data F32 : Type 0 where
  nan : F32
  inf : Bool → F32
  fin : Bool → ℕ → F32

-- What was cut off below the last bit: nothing, less than a half of it, a half, or more.
pub data Rest : Type 0 where
  exact below half above : Rest

abbrev pub shift_rest : Bool → Rest → Rest
shift_rest false exact = exact
shift_rest false _ = below
shift_rest true exact = half
shift_rest true _ = above

abbrev pub is_odd : ℕ → Bool
is_odd n = n % 2 == 1

-- To the nearest whole, or to the even one.
abbrev pub to_even : ℕ → Rest → ℕ
to_even n above = suc n
to_even n half = if is_odd n then suc n else n
to_even n _ = n

-- `n` with what was cut off, rounded to 24 bits; the fuel is the number of bits that may go.
unfoldable pub round : ℕ → ℕ → Rest → ℕ
round zero n r = to_even n r
round (suc fuel) n r =
    let rounded = round fuel (n / 2) (shift_rest (is_odd n) r) in
    if ltb n (2 ^ 24) then to_even n r else 2 * rounded

-- The same after the last `k` bits are cut off.
unfoldable pub round_shifted : ℕ → ℕ → Rest → ℕ
round_shifted zero n r = round 300 n r
round_shifted (suc k) n r = round_shifted k (n / 2) (shift_rest (is_odd n) r)

-- Beyond the largest number, 2^128 - 2^104, is infinity.
abbrev pub finite_or_inf : ℕ → F32
finite_or_inf v = if ltb v (2 ^ 277) then fin false v else inf false

-- `n as f32` for a `usize`.
unfoldable pub of_usize : ℕ → F32
of_usize n = fin false (round 300 n exact * 2 ^ 149)

-- `a * b` for numbers that are not negative.
unfoldable pub mul_positive : ℕ → ℕ → F32
mul_positive a b = finite_or_inf (round_shifted 149 (a * b) exact)

-- `x as usize`: it truncates, and saturates.
abbrev pub as_usize : F32 → ℕ
as_usize nan = 0
as_usize (inf true) = 0
as_usize (inf false) = 2 ^ 64 - 1
as_usize (fin true v) = 0
as_usize (fin false v) = if ltb (v / 2 ^ 149) (2 ^ 64) then v / 2 ^ 149 else 2 ^ 64 - 1

-- `x > c` for a number `c` that is not negative.
abbrev pub gt_positive : F32 → ℕ → Bool
gt_positive nan c = false
gt_positive (inf s) c = if s then false else true
gt_positive (fin true v) c = false
gt_positive (fin false v) c = ltb c v
