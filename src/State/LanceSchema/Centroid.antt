-- ===== src/State/LanceSchema/Centroid.antt =====
-- `compute_synapse_query_vector` of crates/af-swarm-state/src/lance_schema.rs.
use swarm_runtime.Prelude.{ℕ, zero, suc, List, [], ◌∷◌, Option, none, some, length, get_elem?}

-- The `f32` operations that the code uses; `sum` starts at `zero_sum`.
pub record Float : Type 1 where
  pub F : Type 0
  pub zero_sum : F
  pub add : F → F → F
  pub div : F → F → F
  pub of_usize : ℕ → F

pub data Run {ℓ} (A : Type ℓ) : Type ℓ where
  returned : A → Run A
  panicked : Run A

module _ (X : Float) where
  open X use {F, zero_sum, add, div, of_usize}

  abbrev pub sum_with : Run F → Option F → Run F
  sum_with (returned acc) (some x) = returned (add acc x)
  sum_with _ _ = panicked

  -- `seed_vectors.iter().map(|v| v[i]).sum::<f32>()`, from the left.
  unfoldable pub sum_at : ℕ → Run F → List (List F) → Run F
  sum_at i acc [] = acc
  sum_at i acc (v ∷ vs) = sum_at i (sum_with acc (get_elem? v i)) vs

  abbrev pub cons_run : Run F → Run (List F) → Run (List F)
  cons_run (returned x) (returned xs) = returned (x ∷ xs)
  cons_run _ _ = panicked

  abbrev pub divide : Run F → F → Run F
  divide (returned s) n = returned (div s n)
  divide panicked n = panicked

  -- `(i..i + count).map(|i| sum_at(i) / n).collect()`
  unfoldable pub components : ℕ → ℕ → F → List (List F) → Run (List F)
  unfolding sum_at
  components zero i n seeds = returned []
  components (suc count) i n seeds =
      cons_run (divide (sum_at i (returned zero_sum) seeds) n) (components count (suc i) n seeds)

  abbrev pub some_run : Run (List F) → Run (Option (List F))
  some_run (returned xs) = returned (some xs)
  some_run panicked = panicked

  unfoldable pub compute_synapse_query_vector : List (List F) → Run (Option (List F))
  unfolding components
  compute_synapse_query_vector [] = returned none
  compute_synapse_query_vector (v ∷ vs) =
      some_run (components (length v) 0 (of_usize (length (v ∷ vs))) (v ∷ vs))
