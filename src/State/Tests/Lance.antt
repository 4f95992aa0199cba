-- ===== src/State/Tests/Lance.antt =====
-- `query_vector_lem` (crates/af-swarm-state/src/lance_schema.rs) with whole numbers for `f32`.
use swarm_runtime.Prelude.{
  ℕ, List, length, get_elem?, ◌<◌, arith, [], ◌∷◌, ◌+◌, ◌/◌, some, ◌≡◌, refl,
}
use swarm_runtime.State.LanceSchema.{Float, returned, panicked, compute_synapse_query_vector}
use swarm_runtime.State.LanceSchema.Columns.{query_vector_lem, column_sum}

abbrev whole : Float
whole = record { F = ℕ; zero_sum = 0; add = λ a b. a + b; div = λ a b. a / b; of_usize = λ n. n }

abbrev seeds : List (List ℕ)
seeds = (2 ∷ 4 ∷ []) ∷ (4 ∷ 8 ∷ []) ∷ []

mean : compute_synapse_query_vector whole seeds ≡ returned (some (3 ∷ 6 ∷ []))
unfolding compute_synapse_query_vector
mean = refl

-- A shorter second seed is an index out of bounds.
ragged : compute_synapse_query_vector whole ((2 ∷ 4 ∷ []) ∷ (4 ∷ []) ∷ []) ≡ panicked
unfolding compute_synapse_query_vector
ragged = refl

query_vector_lem_example :
    (xs : List ℕ) × (compute_synapse_query_vector whole seeds ≡ returned (some xs))
    × (length xs ≡ 2)
    × ((j : ℕ) → j < 2 → get_elem? xs j ≡ some (column_sum whole j 0 seeds / 2))
query_vector_lem_example =
    (query_vector_lem whole).1 (2 ∷ 4 ∷ []) ((4 ∷ 8 ∷ []) ∷ []) (omega arith, (omega arith, tt))
