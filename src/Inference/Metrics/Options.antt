-- ===== src/Inference/Metrics/Options.antt =====
-- The names and labels of the metrics of crates/af-inference-client/src/metrics.rs.
use swarm_runtime.Prelude.{ℕ, Bytes, List, [], ◌∷◌, codes, ◌++◌}

pub data Kind : Type 0 where
  int_counter_vec : Kind
  -- The buckets' bounds, in hundredths of a second.
  histogram_vec : List ℕ → Kind
  int_gauge_vec : Kind

-- The options and the labels that a vector of metrics is made from.
pub record Opts : Type 0 where
  pub kind : Kind
  pub name : Bytes
  pub help : Bytes
  pub labels : List Bytes

abbrev by_model : List Bytes
by_model = codes "agent_type" ∷ codes "tenant_id" ∷ codes "model" ∷ []

abbrev pub requests_opts : Opts
requests_opts = record {
  kind = int_counter_vec;
  name = codes "inference_requests_total";
  help = codes "Total inference requests";
  labels =
      codes "agent_type"
      ∷ codes "tenant_id"
      ∷ codes "model"
      ∷ codes "task_type"
      ∷ codes "sensitivity"
      ∷ codes "status"
      ∷ [];
}

abbrev pub tokens_in_opts : Opts
tokens_in_opts = record {
  kind = int_counter_vec;
  name = codes "inference_tokens_in_total";
  help = codes "Input tokens consumed";
  labels = by_model;
}

abbrev pub tokens_out_opts : Opts
tokens_out_opts = record {
  kind = int_counter_vec;
  name = codes "inference_tokens_out_total";
  help = codes "Output tokens generated";
  labels = by_model;
}

-- The help text's `×`, U+00D7, is its two bytes.
abbrev pub cost_opts : Opts
cost_opts = record {
  kind = int_counter_vec;
  name = codes "inference_cost_usd_micros_total";
  help = codes "Estimated cost in USD " ++ (0xc3 ∷ 0x97 ∷ codes " 1,000,000 (integer counter)");
  labels = by_model;
}

abbrev pub latency_opts : Opts
latency_opts = record {
  kind = histogram_vec (5 ∷ 10 ∷ 25 ∷ 50 ∷ 100 ∷ 250 ∷ 500 ∷ 1000 ∷ []);
  name = codes "inference_latency_seconds";
  help = codes "End-to-end inference latency";
  labels = codes "agent_type" ∷ codes "model" ∷ codes "task_type" ∷ [];
}

abbrev pub queue_wait_opts : Opts
queue_wait_opts = record {
  kind = histogram_vec (1 ∷ 5 ∷ 10 ∷ 50 ∷ 100 ∷ 500 ∷ []);
  name = codes "inference_queue_wait_seconds";
  help = codes "Time waiting in cluster queue";
  labels = codes "model" ∷ [];
}

abbrev pub budget_opts : Opts
budget_opts = record {
  kind = int_gauge_vec;
  name = codes "inference_budget_remaining_tokens";
  help = codes "Claude API budget remaining (tokens)";
  labels = codes "tenant_id" ∷ codes "model" ∷ [];
}

abbrev pub sequences_opts : Opts
sequences_opts = record {
  kind = int_gauge_vec;
  name = codes "inference_cluster_active_sequences";
  help = codes "Currently active vLLM sequences per replica";
  labels = codes "model" ∷ codes "replica_id" ∷ [];
}

abbrev pub breaker_opts : Opts
breaker_opts = record {
  kind = int_gauge_vec;
  name = codes "inference_circuit_breaker_state";
  help = codes "Circuit breaker state: 0=CLOSED, 1=HALF_OPEN, 2=OPEN";
  labels = codes "model" ∷ [];
}
