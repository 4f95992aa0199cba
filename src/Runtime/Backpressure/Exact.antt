-- ===== src/Runtime/Backpressure/Exact.antt =====
-- The throttling level of crates/af-swarm-runtime/src/agent.rs in whole agents: the ratio 0.8 and the
-- product are rounded to `f32`.
use swarm_runtime.Prelude.{ℕ, true, ◌+◌, ◌*◌, ◌^◌, ◌≤◌, ◌<◌, ◌≡◌, ◌⊎◌, ◌↔◌, inl, arith}
use swarm_runtime.Prelude.Float.{exact, round, of_usize, mul_positive, gt_positive}
use swarm_runtime.Prelude.Float.Rounding.{
  round_mono, round_shifted-exact, round_excess, round_small, round-exact,
}
use swarm_runtime.Runtime.Backpressure.{
  BackpressureStatus, agent_threshold, should_throttle, throttle_agent_ratio, throttle_l3_fill,
}

-- Between four fifths and the next whole number.
rounded_bounds :
    (k : ℕ)
    → 0 < k
    → k < 2 ^ 20
    → (4 * k * 2 ^ 149 ≤ round 300 (5 * k * throttle_agent_ratio) exact)
      × (round 300 (5 * k * throttle_agent_ratio) exact < (4 * k + 1) * 2 ^ 149)
rounded_bounds k pos small =
    let kept = round-exact 300 149 (4 * k) (omega arith) (omega arith) in
    let above =
      round_mono 300 (4 * k * 2 ^ 149) (5 * k * throttle_agent_ratio) exact exact
        (inl (omega arith)) in
    let near = round_excess 300 (5 * k * throttle_agent_ratio) exact (omega arith) in
    (omega arith, omega arith)

threshold_four_fifths :
    (k : ℕ) → 0 < k → k < 2 ^ 20 → agent_threshold (5 * k) throttle_agent_ratio ≡ 4 * k
unfolding agent_threshold of_usize mul_positive
threshold_four_fifths k pos small =
    let n = 5 * k * throttle_agent_ratio in
    let e : (5 * k * 2 ^ 149) * throttle_agent_ratio ≡ n * 2 ^ 149 = omega arith in
    let (low, up) = rounded_bounds k pos small in
    rw (round_small 300 (5 * k) exact (omega arith), e, round_shifted-exact 149 n) (ground arith)

-- With a limit of five times `k`, where `k` is not 0 and below 2^20, dispatch is throttled exactly when
-- more than four times `k` agents are active, or the fill is above its level.
pub throttle_iff :
    (s : BackpressureStatus) (k : ℕ)
    → 0 < k
    → k < 2 ^ 20
    → s.active_agent_limit ≡ 5 * k
    → (should_throttle s ≡ true) ↔ (
        (4 * k < s.active_agent_count)
        ⊎ (gt_positive s.l3_egress_buffer_fill_pct throttle_l3_fill ≡ true))
unfolding should_throttle
throttle_iff s k pos small limit = rw (limit, threshold_four_fifths k pos small) (ground arith)
