-- ===== src/State/Gc.antt =====
-- crates/af-swarm-state/src/gc.rs: the configuration of the garbage collector and its loop. The sweep
-- is a skeleton that deletes nothing, and the tenant erasure is a `todo!()`; the loop never returns,
-- so `run` is its first rounds.
use swarm_runtime.Prelude.{ℕ, zero, suc, Bytes, Bool, true}
use swarm_runtime.State.Error.{StateResult, ok, panic}
use swarm_runtime.State.Exec.{Exec}

pub record GcConfig : Type 0 where
  pub max_retained_checkpoints : ℕ
  pub retain_pre_task_checkpoints : Bool
  pub compliance_retain_days : ℕ
  pub conversation_turn_ttl_days : ℕ
  pub tool_log_ttl_days : ℕ

unfoldable pub default_config : GcConfig
default_config = record {
  max_retained_checkpoints = 5;
  retain_pre_task_checkpoints = true;
  compliance_retain_days = 0;
  conversation_turn_ttl_days = 30;
  tool_log_ttl_days = 90;
}

pub record GcRunner : Type 0 where
  pub config : GcConfig
  pub interval_secs : ℕ

unfoldable pub new_runner : GcConfig → GcRunner
new_runner config = record { config = config; interval_secs = 300 }

pub record ErasureReport : Type 0 where
  pub tenant_id : Bytes
  pub agents_deleted : ℕ
  pub state_records_deleted : ℕ
  pub turn_records_deleted : ℕ
  pub tool_log_records_deleted : ℕ
  pub checkpoint_records_deleted : ℕ
  pub checkpoint_records_pending_compliance_hold : ℕ
  pub lancedb_entries_deleted : ℕ

module _ {W : Type 0} where
  unfoldable pub sweep : GcRunner → Exec W (Unit {0})
  sweep self w = (ok tt, w)

  unfoldable pub erase_tenant : GcRunner → Bytes → Exec W ErasureReport
  erase_tenant self tenant_id w = (panic, w)

  -- The first `rounds` rounds; `tick` waits for the interval. A failed sweep is logged and the loop
  -- goes on; a panic ends the task.
  unfoldable pub run : (GcRunner → W → W) → ℕ → GcRunner → W → StateResult (Unit {0}) × W
  unfolding sweep
  run tick zero self w = (ok tt, w)
  run tick (suc rounds) self w =
      let (r, w') = sweep self (tick self w) in
      elim r [ panic ↦ (panic, w') | _ ↦ run tick rounds self w' ]
