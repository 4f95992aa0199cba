-- ===== src/Inference/Proto.antt =====
-- The enumerations and messages of crates/af-inference-client/proto that the Rust code reads.
use swarm_runtime.Prelude.{Bytes, Option, some, none, ℤ, pos, negsuc, ◌==◌, if◌then◌else◌}

pub data SensitivityLevel : Type 0 where
  unspecified public internal sensitive restricted : SensitivityLevel

-- `sensitivity as i32`
unfoldable pub sensitivity_code : SensitivityLevel → ℤ
sensitivity_code unspecified = pos 0
sensitivity_code public = pos 1
sensitivity_code internal = pos 2
sensitivity_code sensitive = pos 3
sensitivity_code restricted = pos 4

-- `SensitivityLevel::try_from(code)`
unfoldable pub sensitivity_of : ℤ → Option SensitivityLevel
sensitivity_of (negsuc n) = none
sensitivity_of (pos n) =
    if n == 0
    then some unspecified
    else if n == 1
    then some public
    else if n == 2
    then some internal
    else if n == 3
    then some sensitive
    else if n == 4
    then some restricted
    else none

pub record KvNamespaceKey : Type 0 where
  pub tenant_id : Bytes
  pub sensitivity : ℤ
  pub agent_type : Bytes
  pub prefix_hash : Bytes

pub data TaskType : Type 0 where
  task_unspecified orchestration tool_use classification generation reasoning retrieval : TaskType

-- `TaskType::try_from(code)`
unfoldable pub task_type_of : ℤ → Option TaskType
task_type_of (negsuc n) = none
task_type_of (pos n) =
    if n == 0
    then some task_unspecified
    else if n == 1
    then some orchestration
    else if n == 2
    then some tool_use
    else if n == 3
    then some classification
    else if n == 4
    then some generation
    else if n == 5
    then some reasoning
    else if n == 6
    then some retrieval
    else none

pub data CircuitBreakerState : Type 0 where
  breaker_unspecified closed half_open breaker_open : CircuitBreakerState

-- `state as i32`
unfoldable pub breaker_code : CircuitBreakerState → ℤ
breaker_code breaker_unspecified = pos 0
breaker_code closed = pos 1
breaker_code half_open = pos 2
breaker_code breaker_open = pos 3
