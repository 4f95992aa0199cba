-- ===== src/Inference/Client/Calls.antt =====
-- What the calls of crates/af-inference-client/src/client.rs do with the stub.
use swarm_runtime.Prelude.{ℤ, ◌≡◌, ◌↔◌, refl}
use swarm_runtime.Prelude.Results.{Result, ok, err}
use swarm_runtime.Inference.Client.{
  Tonic, ClientError, status, InferenceClusterClient, infer, or_status,
}

module _ (T : Tonic) where
  or_status_iff :
      {A : Type 0} (r : Result A T.Status)
      → ((a : A) → (or_status T r ≡ ok a) ↔ (r ≡ ok a))
        × ((e : ClientError T)
            → or_status T r ≡ err e
            → (s : T.Status) × (r ≡ err s) × (e ≡ status s))
  or_status_iff (ok a) = ((λ b. (λ h. cc, λ h. cc)), (λ e h. absurd (cc)))
  or_status_iff (err s) = ((λ b. (λ h. absurd (cc), λ h. absurd (cc))), (λ e h. (s, refl, cc)))

  -- An inference is one call of the stub, whatever the state of the circuit breaker: the world after
  -- it is the world after that call, it returns what the call returned, and the one error is the
  -- call's own status.
  pub infer_is_one_call :
      (client : InferenceClusterClient T) (request : T.Request) (w : T.World)
      → ((infer T client request w).1 ≡ (T.call_infer client.inner request w).1)
        × ((a : T.Response)
            → ((infer T client request w).0 ≡ ok a)
              ↔ ((T.call_infer client.inner request w).0 ≡ ok a))
        × ((e : ClientError T)
            → (infer T client request w).0 ≡ err e
            → (s : T.Status) × ((T.call_infer client.inner request w).0 ≡ err s) × (e ≡ status s))
        × ((state : ℤ)
            → infer T (record client { circuit_state = state }) request w
              ≡ infer T client request w)
  unfolding infer
  infer_is_one_call client request w =
      let (good, bad) = or_status_iff (T.call_infer client.inner request w).0 in
      (refl, good, bad, λ state. refl)
