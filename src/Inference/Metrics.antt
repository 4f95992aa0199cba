-- ===== src/Inference/Metrics.antt =====
-- crates/af-inference-client/src/metrics.rs: the nine metrics, their registration and the record of one
-- request. The crate prometheus and the arithmetic of `f64` are a parameter.
mod Options
pub mod Registration
pub mod Recording
pub use Options.*
use swarm_runtime.Prelude.{ℕ, Bytes, List, [], ◌∷◌, Option, none, some, codes, ◌++◌}
use swarm_runtime.Prelude.Results.{Result, ok, err, ◌>>=◌}

-- What the code uses of prometheus. An update with a number of label values that is not the number of
-- labels panics: it returns `none`.
pub record Prometheus : Type 1 where
  pub Error : Type 0
  pub Vector : Type 0
  pub Registry : Type 0
  pub World : Type 0
  pub F64 : Type 0
  pub create : Opts → Result Vector Error
  pub register : Vector → Registry → Option Error × Registry
  pub inc : Vector → List Bytes → World → Option World
  pub inc_by : Vector → List Bytes → ℕ → World → Option World
  pub observe : Vector → List Bytes → F64 → World → Option World
  -- `(usd * 1_000_000.0) as u64`
  pub micros : F64 → ℕ

module _ (P : Prometheus) where
  pub record ClusterMetrics : Type 0 where
    pub requests_total : P.Vector
    pub tokens_in_total : P.Vector
    pub tokens_out_total : P.Vector
    pub cost_usd_micros_total : P.Vector
    pub latency_seconds : P.Vector
    pub queue_wait_seconds : P.Vector
    pub budget_remaining_tokens : P.Vector
    pub active_sequences : P.Vector
    pub circuit_breaker_state : P.Vector

  -- The first half of `new`: nine vectors, in this order.
  unfoldable pub create_metrics : Result ClusterMetrics P.Error
  create_metrics = do
    requests ← P.create requests_opts
    tokens_in ← P.create tokens_in_opts
    tokens_out ← P.create tokens_out_opts
    cost ← P.create cost_opts
    latency ← P.create latency_opts
    queue_wait ← P.create queue_wait_opts
    budget ← P.create budget_opts
    sequences ← P.create sequences_opts
    breaker ← P.create breaker_opts
    ok (record {
      requests_total = requests;
      tokens_in_total = tokens_in;
      tokens_out_total = tokens_out;
      cost_usd_micros_total = cost;
      latency_seconds = latency;
      queue_wait_seconds = queue_wait;
      budget_remaining_tokens = budget;
      active_sequences = sequences;
      circuit_breaker_state = breaker;
    })

  -- `registry.register(..)?` for each vector; what was registered stays so beside an error.
  unfoldable pub register_all : List P.Vector → P.Registry → Option P.Error × P.Registry
  register_all [] registry = (none, registry)
  register_all (v ∷ vs) registry =
      let (failed, registry') = P.register v registry in
      elim failed [ some e ↦ (some e, registry') | none ↦ register_all vs registry' ]

  abbrev pub vectors : ClusterMetrics → List P.Vector
  vectors m =
      m.requests_total ∷ m.tokens_in_total ∷ m.tokens_out_total ∷ m.cost_usd_micros_total
      ∷ m.latency_seconds ∷ m.queue_wait_seconds ∷ m.budget_remaining_tokens ∷ m.active_sequences
      ∷ m.circuit_breaker_state ∷ []

  abbrev pub registered :
      ClusterMetrics → Option P.Error × P.Registry → Result ClusterMetrics P.Error × P.Registry
  registered m (none, registry) = (ok m, registry)
  registered m (some e, registry) = (err e, registry)

  unfoldable pub register_created :
      Result ClusterMetrics P.Error → P.Registry → Result ClusterMetrics P.Error × P.Registry
  unfolding register_all
  register_created (err e) registry = (err e, registry)
  register_created (ok m) registry = registered m (register_all (vectors m) registry)

  unfoldable pub new : P.Registry → Result ClusterMetrics P.Error × P.Registry
  unfolding create_metrics register_all register_created
  new registry = register_created create_metrics registry

  -- The arguments of `record`, less the metrics.
  pub record Request : Type 0 where
    pub agent_type : Bytes
    pub tenant_id : Bytes
    pub model : Bytes
    pub task_type : Bytes
    pub sensitivity : Bytes
    pub status : Bytes
    pub tokens_in : ℕ
    pub tokens_out : ℕ
    pub cost_usd : P.F64
    pub latency_s : P.F64
    pub queue_wait_s : P.F64

  abbrev pub then_update : Option P.World → (P.World → Option P.World) → Option P.World
  then_update none f = none
  then_update (some w) f = f w

  -- `record`: six updates in order, where a panic ends the call.
  unfoldable pub record_request : ClusterMetrics → Request → P.World → Option P.World
  record_request self r w =
      let by_tenant = r.agent_type ∷ r.tenant_id ∷ r.model ∷ [] in
      let w1 =
        P.inc self.requests_total
          (r.agent_type ∷ r.tenant_id ∷ r.model ∷ r.task_type ∷ r.sensitivity ∷ r.status ∷ []) w in
      let w2 = then_update w1 (P.inc_by self.tokens_in_total by_tenant r.tokens_in) in
      let w3 = then_update w2 (P.inc_by self.tokens_out_total by_tenant r.tokens_out) in
      let w4 =
        then_update w3 (P.inc_by self.cost_usd_micros_total by_tenant (P.micros r.cost_usd)) in
      let w5 =
        then_update w4 (
          P.observe self.latency_seconds (r.agent_type ∷ r.model ∷ r.task_type ∷ []) r.latency_s) in
      then_update w5 (P.observe self.queue_wait_seconds (r.model ∷ []) r.queue_wait_s)
