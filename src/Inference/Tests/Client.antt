-- ===== src/Inference/Tests/Client.antt =====
-- The client (crates/af-inference-client/src/client.rs) with a stub that counts its calls and fails on
-- the third.
use swarm_runtime.Prelude.{ℕ, Bytes, [], ◌==◌, ◌+◌, if◌then◌else◌, ◌≡◌, refl, pos, codes}
use swarm_runtime.Prelude.Results.{ok, err}
use swarm_runtime.Inference.Client.{Tonic, status, InferenceClusterClient, connect, infer}

abbrev counting : Tonic
counting = record {
  World = ℕ;
  Endpoint = Bytes;
  Channel = Bytes;
  TransportError = Bytes;
  Status = ℕ;
  Request = Bytes;
  Response = Bytes;
  Health = Bytes;
  endpoint = λ text. ok text;
  connect_lazy = λ e. e;
  call_infer = λ channel request w. (if w == 2 then err 14 else ok request, w + 1);
  call_health = λ channel w. (ok [], w + 1);
}

abbrev client : InferenceClusterClient counting
client = record { inner = codes "https://cluster"; circuit_state = pos 1 }

connects : connect counting (codes "https://cluster") ≡ ok client
unfolding connect
connects = refl

-- The third call is not tried again.
fails : infer counting client (codes "plan") 2 ≡ (err (status 14), 3)
unfolding infer
fails = refl
