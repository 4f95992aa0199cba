-- ===== src/Inference/Metrics/Recording.antt =====
-- The record of one request (crates/af-inference-client/src/metrics.rs): the label values that it gives
-- to each vector.
use swarm_runtime.Prelude.{ℕ, Bytes, List, [], ◌∷◌, some, ◌≡◌, refl, length}
use swarm_runtime.Inference.Metrics.{
  Opts, Prometheus, ClusterMetrics, Request, record_request, requests_opts, tokens_in_opts,
  tokens_out_opts, cost_opts, latency_opts, queue_wait_opts,
}
use swarm_runtime.Inference.Metrics.Registration.{IsPrometheus, IsMade}

-- What an update is of: the vector's options and the label values, with the amount.
pub data Update (F : Type 0) : Type 0 where
  count : Opts → List Bytes → ℕ → Update F
  observed : Opts → List Bytes → F → Update F

-- What prometheus documents: an update with as many values as labels does not panic, and is seen.
pub record IsUpdatable (P : Prometheus) (laws : IsPrometheus P) : Type 0 where
  pub seen : P.World → List (Update P.F64)
  pub inc_ok :
      (v : P.Vector) (ls : List Bytes) (w : P.World)
      → length ls ≡ length (laws.opts_of v).labels
      → (w' : P.World) × (P.inc v ls w ≡ some w') × (seen w' ≡ count (laws.opts_of v) ls 1 ∷ seen w)
  pub inc_by_ok :
      (v : P.Vector) (ls : List Bytes) (n : ℕ) (w : P.World)
      → length ls ≡ length (laws.opts_of v).labels
      → (w' : P.World) × (P.inc_by v ls n w ≡ some w')
        × (seen w' ≡ count (laws.opts_of v) ls n ∷ seen w)
  pub observe_ok :
      (v : P.Vector) (ls : List Bytes) (x : P.F64) (w : P.World)
      → length ls ≡ length (laws.opts_of v).labels
      → (w' : P.World) × (P.observe v ls x w ≡ some w')
        × (seen w' ≡ observed (laws.opts_of v) ls x ∷ seen w)

module _ (P : Prometheus) (laws : IsPrometheus P) (updates : IsUpdatable P laws) where
  open updates use {seen, inc_ok, inc_by_ok, observe_ok}

  -- A recorded request, for metrics made as `new` makes them, is six updates: one request, its input
  -- and output tokens and its cost, its latency and its wait; each with its labels, and no panic.
  pub record_six_updates :
      (m : ClusterMetrics P) (r : Request P) (w : P.World)
      → IsMade P laws m
      → (w' : P.World) × (record_request P m r w ≡ some w')
        × (seen w'
            ≡ observed queue_wait_opts (r.model ∷ []) r.queue_wait_s
              ∷ observed latency_opts (r.agent_type ∷ r.model ∷ r.task_type ∷ []) r.latency_s
              ∷ count cost_opts (r.agent_type ∷ r.tenant_id ∷ r.model ∷ []) (P.micros r.cost_usd)
              ∷ count tokens_out_opts (r.agent_type ∷ r.tenant_id ∷ r.model ∷ []) r.tokens_out
              ∷ count tokens_in_opts (r.agent_type ∷ r.tenant_id ∷ r.model ∷ []) r.tokens_in
              ∷ count requests_opts
                  (r.agent_type ∷ r.tenant_id ∷ r.model ∷ r.task_type ∷ r.sensitivity ∷ r.status
                    ∷ [])
                  1
              ∷ seen w)
  unfolding record_request
  record_six_updates m r w (o1, o2, o3, o4, o5, o6, o7, o8, o9) =
      let by_tenant = r.agent_type ∷ r.tenant_id ∷ r.model ∷ [] in
      let (w1, e1, s1) =
        inc_ok m.requests_total
          (r.agent_type ∷ r.tenant_id ∷ r.model ∷ r.task_type ∷ r.sensitivity ∷ r.status ∷ []) w
          (rw o1 refl) in
      let (w2, e2, s2) = inc_by_ok m.tokens_in_total by_tenant r.tokens_in w1 (rw o2 refl) in
      let (w3, e3, s3) = inc_by_ok m.tokens_out_total by_tenant r.tokens_out w2 (rw o3 refl) in
      let (w4, e4, s4) =
        inc_by_ok m.cost_usd_micros_total by_tenant (P.micros r.cost_usd) w3 (rw o4 refl) in
      let (w5, e5, s5) =
        observe_ok m.latency_seconds (r.agent_type ∷ r.model ∷ r.task_type ∷ []) r.latency_s w4
          (rw o5 refl) in
      let (w6, e6, s6) =
        observe_ok m.queue_wait_seconds (r.model ∷ []) r.queue_wait_s w5 (rw o6 refl) in
      (
        w6,
        rw (e1, e2, e3, e4, e5, e6) refl,
        rw (s6, s5, s4, s3, s2, s1, o1, o2, o3, o4, o5, o6) refl,
      )
