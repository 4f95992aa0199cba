-- ===== src/Inference/Client.antt =====
-- crates/af-inference-client/src/client.rs: the client of the cluster. The tonic transport and the
-- generated stub are a parameter; a `Duration` is in seconds.
pub mod Calls
pub mod Deadlines
use swarm_runtime.Prelude.{ℕ, Bytes, ℤ, Option, none, some, ◌≡◌}
use swarm_runtime.Prelude.Results.{Result, ok, err}
use swarm_runtime.Inference.Proto.{
  TaskType, task_unspecified, orchestration, classification, reasoning, task_type_of, closed,
  breaker_code,
}

abbrev pub deadline_classification_s : ℕ
deadline_classification_s = 5

abbrev pub deadline_standard_s : ℕ
deadline_standard_s = 60

abbrev pub deadline_orchestration_s : ℕ
deadline_orchestration_s = 120

abbrev pub max_retries : ℕ
max_retries = 3

abbrev pub retry_base_ms : ℕ
retry_base_ms = 50

-- What the client uses of tonic: an endpoint from a text, a channel on it that connects when it is
-- used, and the two calls of the generated stub, which change the world.
pub record Tonic : Type 1 where
  pub World : Type 0
  pub Endpoint : Type 0
  pub Channel : Type 0
  pub TransportError : Type 0
  pub Status : Type 0
  pub Request : Type 0
  pub Response : Type 0
  pub Health : Type 0
  pub endpoint : Bytes → Result Endpoint TransportError
  pub connect_lazy : Endpoint → Channel
  pub call_infer : Channel → Request → World → Result Response Status × World
  pub call_health : Channel → World → Result Health Status × World

module _ (T : Tonic) where
  pub data ClientError : Type 0 where
    transport : T.TransportError → ClientError
    status : T.Status → ClientError
    cluster_full : ClientError
    budget_exhausted : Bytes → ClientError
    circuit_open : Bytes → ClientError
    inference_timeout : ℕ → ClientError
    max_retries_exceeded : ClientError

  -- `circuit_state` is the value of the shared atomic.
  pub record InferenceClusterClient : Type 0 where
    pub inner : T.Channel
    pub circuit_state : ℤ

  unfoldable pub connected :
      Result T.Endpoint T.TransportError → Result InferenceClusterClient ClientError
  unfolding breaker_code
  connected (ok e) = ok (record { inner = T.connect_lazy e; circuit_state = breaker_code closed })
  connected (err e) = err (transport e)

  unfoldable pub connect : Bytes → Result InferenceClusterClient ClientError
  unfolding connected
  connect text = connected (T.endpoint text)

  -- `?` on a status.
  abbrev pub or_status : {A : Type 0} → Result A T.Status → Result A ClientError
  or_status (ok a) = ok a
  or_status (err s) = err (status s)

  unfoldable pub infer :
      InferenceClusterClient → T.Request → T.World → Result T.Response ClientError × T.World
  infer self request w = let (r, w') = T.call_infer self.inner request w in (or_status r, w')

  unfoldable pub health : InferenceClusterClient → T.World → Result T.Health ClientError × T.World
  health self w = let (r, w') = T.call_health self.inner w in (or_status r, w')

abbrev pub unwrap_or_task_unspecified : Option TaskType → TaskType
unwrap_or_task_unspecified none = task_unspecified
unwrap_or_task_unspecified (some t) = t

abbrev pub deadline_of : TaskType → ℕ
deadline_of classification = deadline_classification_s
deadline_of orchestration = deadline_orchestration_s
deadline_of reasoning = deadline_orchestration_s
deadline_of _ = deadline_standard_s

unfoldable pub deadline_for_task : ℤ → ℕ
unfolding task_type_of
deadline_for_task task_type = deadline_of (unwrap_or_task_unspecified (task_type_of task_type))
