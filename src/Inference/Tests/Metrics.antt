-- ===== src/Inference/Tests/Metrics.antt =====
-- The metrics (crates/af-inference-client/src/metrics.rs) on a registry that is the list of its names,
-- with whole cents for dollars.
use swarm_runtime.Prelude.{
  ℕ, Bytes, List, ◌∷◌, Option, none, some, ◌≡◌, ◌==◌, ◌*◌, refl, arith, length, if◌then◌else◌,
  codes,
}
use swarm_runtime.Prelude.Results.{ok}
use swarm_runtime.Inference.Metrics.{
  Opts, Prometheus, ClusterMetrics, Request, requests_opts, tokens_in_opts, tokens_out_opts,
  cost_opts, latency_opts, queue_wait_opts, budget_opts, sequences_opts, breaker_opts,
}
use swarm_runtime.Inference.Metrics.Registration.{has_name, IsPrometheus}
use swarm_runtime.Inference.Metrics.Recording.{Update, count, observed, IsUpdatable}

abbrev seen_if : Opts → List Bytes → Update ℕ → List (Update ℕ) → Option (List (Update ℕ))
seen_if o ls u w = if length ls == length o.labels then some (u ∷ w) else none

abbrev registered_name : Opts → List Bytes → Option ℕ × List Bytes
registered_name o held = if has_name o.name held then (some 1, held) else (none, o.name ∷ held)

abbrev lists : Prometheus
lists = record {
  Error = ℕ;
  Vector = Opts;
  Registry = List Bytes;
  World = List (Update ℕ);
  F64 = ℕ;
  create = λ o. ok o;
  register = registered_name;
  inc = λ o ls w. seen_if o ls (count o ls 1) w;
  inc_by = λ o ls n w. seen_if o ls (count o ls n) w;
  observe = λ o ls x w. seen_if o ls (observed o ls x) w;
  micros = λ cents. cents * 10000;
}

abbrev lists_laws : IsPrometheus lists
lists_laws = record {
  opts_of = λ o. o;
  names = λ held. held;
  creates = λ o. (o, refl, refl);
  takes = λ o held free. rw free (refl, refl);
  refuses = λ o held taken. (1, rw taken refl);
}

seen_if_ok :
    (o : Opts) (ls : List Bytes) (u : Update ℕ) (w : List (Update ℕ))
    → length ls ≡ length o.labels
    → (w' : List (Update ℕ)) × (seen_if o ls u w ≡ some w') × (w' ≡ u ∷ w)
seen_if_ok o ls u w h = (u ∷ w, ground arith, refl)

lists_updates : IsUpdatable lists lists_laws
lists_updates = record {
  seen = λ w. w;
  inc_ok = λ o ls w h. seen_if_ok o ls (count o ls 1) w h;
  inc_by_ok = λ o ls n w h. seen_if_ok o ls (count o ls n) w h;
  observe_ok = λ o ls x w h. seen_if_ok o ls (observed o ls x) w h;
}

abbrev metrics : ClusterMetrics lists
metrics = record {
  requests_total = requests_opts;
  tokens_in_total = tokens_in_opts;
  tokens_out_total = tokens_out_opts;
  cost_usd_micros_total = cost_opts;
  latency_seconds = latency_opts;
  queue_wait_seconds = queue_wait_opts;
  budget_remaining_tokens = budget_opts;
  active_sequences = sequences_opts;
  circuit_breaker_state = breaker_opts;
}

abbrev request : Request lists
request = record {
  agent_type = codes "orchestrator";
  tenant_id = codes "acme";
  model = codes "claude";
  task_type = codes "reasoning";
  sensitivity = codes "PUBLIC";
  status = codes "ok";
  tokens_in = 120;
  tokens_out = 48;
  cost_usd = 3;
  latency_s = 2;
  queue_wait_s = 0;
}
