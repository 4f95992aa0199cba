-- ===== src/Runtime/Backpressure/Levels.antt =====
-- How the two levels of backpressure of crates/af-swarm-runtime/src/agent.rs are ordered, with the
-- rounding of `f32` and the truncation to `usize` taken into account.
use swarm_runtime.Prelude.{
  ℕ, true, ◌+◌, ◌*◌, ◌^◌, ◌≤◌, ◌<◌, ◌≡◌, ◌⊎◌, inl, inr, arith, ltb, Bool-cases,
}
use swarm_runtime.Prelude.Float.{
  F32, exact, round, of_usize, mul_positive, as_usize, gt_positive, finite_or_inf,
}
use swarm_runtime.Prelude.Float.Rounding.{
  round_shifted_mono, round_shifted-exact, round_excess, round_small,
}
use swarm_runtime.Runtime.Backpressure.{
  BackpressureStatus, agent_threshold, should_throttle, is_critical, throttle_agent_ratio,
  critical_agent_ratio, throttle_l3_fill, critical_l3_fill,
}

as_usize_mono : (v w : ℕ) → v ≤ w → as_usize (finite_or_inf v) ≤ as_usize (finite_or_inf w)
as_usize_mono v w h = ground arith

Upto_le : (m n : ℕ) → m ≤ n → (m < n) ⊎ ((m ≡ n) × (0 ≤ 0))
Upto_le m n h = ground arith

mul_le : (n a b : ℕ) → a ≤ b → n * a ≤ n * b
mul_le n a b h = grind arith

agent_threshold_mono : (limit a b : ℕ) → a ≤ b → agent_threshold limit a ≤ agent_threshold limit b
unfolding agent_threshold of_usize mul_positive
agent_threshold_mono limit a b h =
    let v = round 300 limit exact * 2 ^ 149 in
    as_usize_mono _ _ (
      round_shifted_mono 149 (v * a) (v * b) exact exact (Upto_le (v * a) (v * b) (mul_le v a b h)))

gt_positive_mono : (x : F32) (c d : ℕ) → c ≤ d → gt_positive x d ≡ true → gt_positive x c ≡ true
gt_positive_mono x c d h g = ground arith

-- At critical pressure new dispatches are throttled as well, whatever the limit, the counts and the
-- fill, NaN and infinities included.
pub critical_throttles : (s : BackpressureStatus) → is_critical s ≡ true → should_throttle s ≡ true
unfolding is_critical should_throttle
critical_throttles s h =
    let agents =
      agent_threshold_mono s.active_agent_limit throttle_agent_ratio critical_agent_ratio
        (omega arith) in
    let fill =
      gt_positive_mono s.l3_egress_buffer_fill_pct throttle_l3_fill critical_l3_fill
        (omega arith) in
    ground arith

round_le : (n : ℕ) → round 300 n exact * 2 ^ 23 ≤ n * (2 ^ 23 + 1)
round_le n = elim (Bool-cases (ltb n (2 ^ 23))) [
  | inl small ↦ rw (round_small 300 n exact (ground arith)) (omega arith)
  | inr large ↦ round_excess 300 n exact (ground arith)
]

-- A limit that is not 0 lies above the threshold that is taken of it.
critical_threshold_lt :
    (limit : ℕ) → 0 < limit → limit < 2 ^ 64 → agent_threshold limit critical_agent_ratio < limit
unfolding agent_threshold of_usize mul_positive
critical_threshold_lt limit pos small =
    let q = round 300 limit exact in
    let n = q * critical_agent_ratio in
    let e : (q * 2 ^ 149) * critical_agent_ratio ≡ n * 2 ^ 149 = omega arith in
    let up = round_le limit in
    let up' = round_le n in rw (e, round_shifted-exact 149 n) (ground arith)

-- When every slot is taken, of a limit that is not 0, the pressure is critical.
pub full_is_critical :
    (s : BackpressureStatus)
    → 0 < s.active_agent_limit
    → s.active_agent_limit < 2 ^ 64
    → s.active_agent_limit ≤ s.active_agent_count
    → is_critical s ≡ true
unfolding is_critical
full_is_critical s pos small full =
    let lt = critical_threshold_lt s.active_agent_limit pos small in ground arith
