-- ===== src/Runtime/Tests/Levels.antt =====
-- The agent thresholds of crates/af-swarm-runtime/src/agent.rs.
use swarm_runtime.Prelude.{◌↔◌, ◌⊎◌, ◌<◌, ◌≡◌, refl, true, false, arith}
use swarm_runtime.Prelude.Float.{gt_positive, nan, round, round_shifted}
use swarm_runtime.Runtime.Backpressure.{
  BackpressureStatus, no_pressure, should_throttle, is_critical, agent_threshold,
  throttle_agent_ratio, critical_agent_ratio, throttle_l3_fill,
}
use swarm_runtime.Runtime.Backpressure.Levels.{critical_throttles}
use swarm_runtime.Runtime.Backpressure.Exact.{throttle_iff}

throttle_100 : agent_threshold 100 throttle_agent_ratio ≡ 80
unfolding agent_threshold round round_shifted
throttle_100 = refl

critical_100 : agent_threshold 100 critical_agent_ratio ≡ 95
unfolding agent_threshold round round_shifted
critical_100 = refl

-- 96 agents of 100, and a fill that is not a number.
abbrev busy : BackpressureStatus
busy = record {
  active_agent_count = 96;
  active_agent_limit = 100;
  l3_egress_buffer_fill_pct = nan;
  pending_hydrations = 0;
  memory_pressure = no_pressure;
}

abbrev at_95 : BackpressureStatus
at_95 = record busy { active_agent_count = 95 }

busy-critical : is_critical busy ≡ true
unfolding is_critical round round_shifted
busy-critical = refl

at_95-not-critical : is_critical at_95 ≡ false
unfolding is_critical round round_shifted
at_95-not-critical = refl

critical_throttles_example : should_throttle busy ≡ true
critical_throttles_example = critical_throttles busy busy-critical

abbrev full : BackpressureStatus
full = record busy { active_agent_count = 100 }

throttle_iff_example :
    (should_throttle busy ≡ true) ↔ ((80 < 96) ⊎ (gt_positive nan throttle_l3_fill ≡ true))
throttle_iff_example = throttle_iff busy 20 (omega arith) (omega arith) refl
