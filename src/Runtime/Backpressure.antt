-- ===== src/Runtime/Backpressure.antt =====
-- The backpressure signal of crates/af-swarm-runtime/src/agent.rs. `f32` is exact, a `usize` is a
-- number below 2^64.
pub mod Levels
pub mod Exact
use swarm_runtime.Prelude.{ℕ, Bool, ◌*◌, ◌^◌, ◌||◌, ltb}
use swarm_runtime.Prelude.Float.{F32, nan, inf, fin, of_usize, mul_positive, as_usize, gt_positive}

pub data MemoryPressureLevel : Type 0 where
  no_pressure low high critical : MemoryPressureLevel

-- The `f32` nearest to 0.80, 0.85 and 0.95, in units of 2^-149.
abbrev pub throttle_agent_ratio : ℕ
throttle_agent_ratio = 13421773 * 2 ^ 125

abbrev pub throttle_l3_fill : ℕ
throttle_l3_fill = 14260634 * 2 ^ 125

abbrev pub critical_agent_ratio : ℕ
critical_agent_ratio = 15938355 * 2 ^ 125

abbrev pub critical_l3_fill : ℕ
critical_l3_fill = 15938355 * 2 ^ 125

abbrev pub hydration_timeout_secs : ℕ
hydration_timeout_secs = 15

pub record BackpressureStatus : Type 0 where
  pub active_agent_count : ℕ
  pub active_agent_limit : ℕ
  pub l3_egress_buffer_fill_pct : F32
  pub pending_hydrations : ℕ
  pub memory_pressure : MemoryPressureLevel

-- `x * ratio` for a ratio that is a constant.
abbrev times : F32 → ℕ → F32
times (fin s v) ratio = mul_positive v ratio
times x ratio = x

-- `(limit as f32 * ratio) as usize`
unfoldable pub agent_threshold : ℕ → ℕ → ℕ
unfolding of_usize mul_positive
agent_threshold limit ratio = as_usize (times (of_usize limit) ratio)

unfoldable pub should_throttle : BackpressureStatus → Bool
unfolding agent_threshold
should_throttle self =
    ltb (agent_threshold self.active_agent_limit throttle_agent_ratio) self.active_agent_count
    || gt_positive self.l3_egress_buffer_fill_pct throttle_l3_fill

unfoldable pub is_critical : BackpressureStatus → Bool
unfolding agent_threshold
is_critical self =
    ltb (agent_threshold self.active_agent_limit critical_agent_ratio) self.active_agent_count
    || gt_positive self.l3_egress_buffer_fill_pct critical_l3_fill
