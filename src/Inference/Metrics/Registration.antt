-- ===== src/Inference/Metrics/Registration.antt =====
-- Registration of the metrics of crates/af-inference-client/src/metrics.rs in a registry that refuses
-- a name that it has.
use swarm_runtime.Prelude.{
  Bytes, List, [], ◌∷◌, Bool, true, false, not, ◌&&◌, ◌||◌, Option, none, some, ◌≡◌, refl, arith,
  eq_bytes, ap, ◌∙◌,
}
use swarm_runtime.Prelude.Results.{ok, err}
use swarm_runtime.Inference.Metrics.{
  Opts, Prometheus, ClusterMetrics, create_metrics, register_all, vectors, registered, new,
  requests_opts, tokens_in_opts, tokens_out_opts, cost_opts, latency_opts, queue_wait_opts,
  budget_opts, sequences_opts, breaker_opts,
}

abbrev pub has_name : Bytes → List Bytes → Bool
has_name n [] = false
has_name n (m ∷ ms) = eq_bytes m n || has_name n ms

-- What prometheus documents: the options here are valid; a registry takes a vector exactly if it has
-- none of that name, and has it then; `AlreadyReg` leaves it as it was.
pub record IsPrometheus (P : Prometheus) : Type 0 where
  pub opts_of : P.Vector → Opts
  pub names : P.Registry → List Bytes
  pub creates : (o : Opts) → (v : P.Vector) × (P.create o ≡ ok v) × (opts_of v ≡ o)
  pub takes :
      (v : P.Vector) (r : P.Registry)
      → has_name (opts_of v).name (names r) ≡ false
      → ((P.register v r).0 ≡ none) × (names (P.register v r).1 ≡ (opts_of v).name ∷ names r)
  pub refuses :
      (v : P.Vector) (r : P.Registry)
      → has_name (opts_of v).name (names r) ≡ true
      → (e : P.Error) × (P.register v r ≡ (some e, r))

-- The names that a registry has after `ns` are registered in turn, and whether all were free.
abbrev pub add_names : List Bytes → List Bytes → List Bytes
add_names [] held = held
add_names (n ∷ ns) held = add_names ns (n ∷ held)

abbrev pub all_free : List Bytes → List Bytes → Bool
all_free [] held = true
all_free (n ∷ ns) held = not (has_name n held) && all_free ns (n ∷ held)

abbrev pub metric_names : List Bytes
metric_names =
    requests_opts.name ∷ tokens_in_opts.name ∷ tokens_out_opts.name ∷ cost_opts.name
    ∷ latency_opts.name ∷ queue_wait_opts.name ∷ budget_opts.name ∷ sequences_opts.name
    ∷ breaker_opts.name ∷ []

module _ (P : Prometheus) (laws : IsPrometheus P) where
  open laws use {opts_of, names, creates, takes, refuses}

  names_of : List P.Vector → List Bytes
  names_of [] = []
  names_of (v ∷ vs) = (opts_of v).name ∷ names_of vs

  free_parts :
      (n : Bytes) (ns held : List Bytes)
      → all_free (n ∷ ns) held ≡ true
      → (has_name n held ≡ false) × (all_free ns (n ∷ held) ≡ true)
  free_parts n ns held h = ground arith

  register_all-free :
      (vs : List P.Vector) (r : P.Registry)
      → all_free (names_of vs) (names r) ≡ true
      → ((register_all P vs r).0 ≡ none)
        × (names (register_all P vs r).1 ≡ add_names (names_of vs) (names r))
  unfolding register_all names_of
  register_all-free [] r h = (refl, refl)
  register_all-free (v ∷ vs) r h =
      let (free, rest) = free_parts (opts_of v).name (names_of vs) (names r) h in
      let (fine, held) = takes v r free in
      rw (register_all, fine)
        (rw held at (register_all-free vs (P.register v r).1 (rw (← held) at rest)))

  -- The vectors that `new` creates are those of the nine options.
  abbrev pub IsMade : ClusterMetrics P → Type 0
  IsMade m =
      (opts_of m.requests_total ≡ requests_opts)
      × (opts_of m.tokens_in_total ≡ tokens_in_opts)
      × (opts_of m.tokens_out_total ≡ tokens_out_opts)
      × (opts_of m.cost_usd_micros_total ≡ cost_opts)
      × (opts_of m.latency_seconds ≡ latency_opts)
      × (opts_of m.queue_wait_seconds ≡ queue_wait_opts)
      × (opts_of m.budget_remaining_tokens ≡ budget_opts)
      × (opts_of m.active_sequences ≡ sequences_opts)
      × (opts_of m.circuit_breaker_state ≡ breaker_opts)

  create_metrics_ok : (m : ClusterMetrics P) × (create_metrics P ≡ ok m) × IsMade m
  unfolding create_metrics
  create_metrics_ok =
      let (v1, e1, o1) = creates requests_opts in
      let (v2, e2, o2) = creates tokens_in_opts in
      let (v3, e3, o3) = creates tokens_out_opts in
      let (v4, e4, o4) = creates cost_opts in
      let (v5, e5, o5) = creates latency_opts in
      let (v6, e6, o6) = creates queue_wait_opts in
      let (v7, e7, o7) = creates budget_opts in
      let (v8, e8, o8) = creates sequences_opts in
      let (v9, e9, o9) = creates breaker_opts in
      (
        record {
          requests_total = v1;
          tokens_in_total = v2;
          tokens_out_total = v3;
          cost_usd_micros_total = v4;
          latency_seconds = v5;
          queue_wait_seconds = v6;
          budget_remaining_tokens = v7;
          active_sequences = v8;
          circuit_breaker_state = v9;
        },
        rw (e1, e2, e3, e4, e5, e6, e7, e8, e9) refl,
        (o1, o2, o3, o4, o5, o6, o7, o8, o9),
      )

  made_names : (m : ClusterMetrics P) → IsMade m → names_of (vectors P m) ≡ metric_names
  unfolding names_of
  made_names m (o1, o2, o3, o4, o5, o6, o7, o8, o9) = rw (o1, o2, o3, o4, o5, o6, o7, o8, o9) refl

  registered-none :
      (m : ClusterMetrics P) (p : Option P.Error × P.Registry)
      → p.0 ≡ none
      → registered P m p ≡ (ok m, p.1)
  registered-none m (none, r) h = refl
  registered-none m (some e, r) h = absurd (cc)

  new_fresh :
      (r : P.Registry)
      → names r ≡ []
      → (m : ClusterMetrics P) × IsMade m
        × ((new P r).0 ≡ ok m)
        × (names (new P r).1 ≡ add_names metric_names [])
  unfolding new
  new_fresh r fresh =
      let (m, created, made) = create_metrics_ok in
      let (fine, held) = register_all-free (vectors P m) r (rw (made_names m made, fresh) refl) in
      let run = registered-none m (register_all P (vectors P m) r) fine in
      (
        m,
        made,
        rw (created, run) refl,
        rw (created, run) (held ∙ rw (made_names m made, fresh) refl),
      )

  register_all-taken :
      (m : ClusterMetrics P) (r : P.Registry)
      → IsMade m
      → has_name requests_opts.name (names r) ≡ true
      → (e : P.Error) × (register_all P (vectors P m) r ≡ (some e, r))
  unfolding register_all
  register_all-taken m r made taken =
      let o = made.0 in
      let (e, refused) = refuses m.requests_total r (rw o taken) in
      (e, rw refused (ap (λ p. (some e, p.1)) refused))

  new_taken :
      (r : P.Registry)
      → has_name requests_opts.name (names r) ≡ true
      → (e : P.Error) × (new P r ≡ (err e, r))
  unfolding new
  new_taken r taken =
      let (m, created, made) = create_metrics_ok in
      let (e, refused) = register_all-taken m r made taken in (e, rw (created, refused) refl)

  -- On an empty registry the metrics are created as described and all nine are registered, in order;
  -- a second call on the same registry fails and leaves the registry as it is.
  pub new_registers_once :
      (r : P.Registry)
      → names r ≡ []
      → (m : ClusterMetrics P) × IsMade m
        × ((new P r).0 ≡ ok m)
        × (names (new P r).1 ≡ add_names metric_names [])
        × ((e : P.Error) × (new P (new P r).1 ≡ (err e, (new P r).1)))
  new_registers_once r fresh =
      let (m, made, run, held) = new_fresh r fresh in
      (m, made, run, held, new_taken (new P r).1 (rw held refl))
