-- ===== src/State/LanceSchema/Columns.antt =====
-- What the query vector of crates/af-swarm-state/src/lance_schema.rs is: the mean of each column, where
-- every seed is as long as the first, and a panic otherwise.
use swarm_runtime.Prelude.{
  ℕ, zero, suc, ◌+◌, ◌≤◌, ◌<◌, List, [], ◌∷◌, Option, none, some, ◌≡◌, ◌⊎◌, inl, inr, refl, arith,
  length, get_elem?, All,
}
use swarm_runtime.State.LanceSchema.Centroid.{
  Float, Run, returned, panicked, sum_with, sum_at, cons_run, divide, components,
  compute_synapse_query_vector,
}

get_elem?-lt {ℓ} :
    {A : Type ℓ} (xs : List A) (i : ℕ) → i < length xs → (x : A) × (get_elem? xs i ≡ some x)
get_elem?-lt [] i h = elim h [ ]
get_elem?-lt (x ∷ xs) zero h = (x, refl)
get_elem?-lt (x ∷ xs) (suc i) h = get_elem?-lt xs i (omega arith)

get_elem?-ge {ℓ} : {A : Type ℓ} (xs : List A) (i : ℕ) → length xs ≤ i → get_elem? xs i ≡ none
get_elem?-ge [] i h = refl
get_elem?-ge (x ∷ xs) zero h = absurd (omega arith)
get_elem?-ge (x ∷ xs) (suc i) h = get_elem?-ge xs i (omega arith)

module _ (X : Float) where
  open X use {F, zero_sum, add, div, of_usize}

  -- The sum of a column, from the left; a seed that is too short adds nothing.
  abbrev pub add_entry : F → Option F → F
  add_entry acc none = acc
  add_entry acc (some x) = add acc x

  abbrev pub column_sum : ℕ → F → List (List F) → F
  column_sum i acc [] = acc
  column_sum i acc (v ∷ vs) = column_sum i (add_entry acc (get_elem? v i)) vs

  abbrev pub IsLong : ℕ → List (List F) → Type 0
  IsLong n = All (λ v. n ≤ length v)

  sum_at_long :
      (i : ℕ) (acc : F) (vs : List (List F))
      → IsLong (suc i) vs
      → sum_at X i (returned acc) vs ≡ returned (column_sum i acc vs)
  unfolding sum_at
  sum_at_long i acc [] h = refl
  sum_at_long i acc (v ∷ vs) (hv, h) =
      let (x, e) = get_elem?-lt v i hv in rw e (sum_at_long i (add acc x) vs h)

  sum_at_panicked : (i : ℕ) (vs : List (List F)) → sum_at X i panicked vs ≡ panicked
  unfolding sum_at
  sum_at_panicked i [] = refl
  sum_at_panicked i (v ∷ vs) = sum_at_panicked i vs

  -- A seed shorter than `n`.
  abbrev pub HasShort : ℕ → List (List F) → Type 0
  HasShort n [] = ⊥
  HasShort n (v ∷ vs) = (length v < n) ⊎ HasShort n vs

  sum_at_short :
      (i : ℕ) (acc : Run F) (vs : List (List F))
      → HasShort (suc i) vs
      → sum_at X i acc vs ≡ panicked
  unfolding sum_at
  sum_at_short i acc [] h = absurd h
  sum_at_short i panicked (v ∷ vs) h = sum_at_panicked i vs
  sum_at_short i (returned acc) (v ∷ vs) (inl short) =
      rw (get_elem?-ge v i (omega arith)) (sum_at_panicked i vs)
  sum_at_short i (returned acc) (v ∷ vs) (inr h) =
      sum_at_short i (sum_with X (returned acc) (get_elem? v i)) vs h

  IsLong-le : (m n : ℕ) (vs : List (List F)) → m ≤ n → IsLong n vs → IsLong m vs
  IsLong-le m n [] le h = tt
  IsLong-le m n (v ∷ vs) le (hv, h) = (omega arith, IsLong-le m n vs le h)

  at_cons :
      (i : ℕ) (n : F) (seeds : List (List F)) (x : F) (xs : List F) (count : ℕ)
      → x ≡ div (column_sum i zero_sum seeds) n
      → ((j : ℕ)
          → j < count
          → get_elem? xs j ≡ some (div (column_sum (suc i + j) zero_sum seeds) n))
      → (j : ℕ) → j < suc count
      → get_elem? (x ∷ xs) j ≡ some (div (column_sum (i + j) zero_sum seeds) n)
  at_cons i n seeds x xs count first rest zero lt = let e : i + 0 ≡ i = omega arith in rw (e, first)
  at_cons i n seeds x xs count first rest (suc j) lt =
      let e : suc i + j ≡ i + suc j = omega arith in rw e at (rest j (omega arith))

  components_long :
      (count i : ℕ) (n : F) (seeds : List (List F))
      → IsLong (i + count) seeds
      → (xs : List F) × (components X count i n seeds ≡ returned xs)
        × (length xs ≡ count)
        × ((j : ℕ) → j < count → get_elem? xs j ≡ some (div (column_sum (i + j) zero_sum seeds) n))
  unfolding components
  components_long zero i n seeds h = ([], refl, refl, λ j lt. absurd (omega arith))
  components_long (suc count) i n seeds h =
      let here =
        sum_at_long i zero_sum seeds (IsLong-le (suc i) (i + suc count) seeds (omega arith) h) in
      let (xs, run, len, at) =
        components_long count (suc i) n seeds
          (IsLong-le (suc i + count) (i + suc count) seeds (omega arith) h) in
      (
        div (column_sum i zero_sum seeds) n ∷ xs,
        rw (here, run),
        omega arith,
        at_cons i n seeds (div (column_sum i zero_sum seeds) n) xs count refl at,
      )

  cons_run_panicked : (r : Run F) → cons_run X r panicked ≡ panicked
  cons_run_panicked (returned x) = refl
  cons_run_panicked panicked = refl

  zero-IsLong : (n : ℕ) (vs : List (List F)) → IsLong n vs → IsLong (0 + n) vs
  zero-IsLong n vs h = let e : n ≡ 0 + n = omega arith in rw e at h

  -- The first column is column 0.
  at_zero :
      (n : F) (seeds : List (List F)) (xs : List F) (count : ℕ)
      → ((j : ℕ) → j < count → get_elem? xs j ≡ some (div (column_sum (0 + j) zero_sum seeds) n))
      → (j : ℕ) → j < count
      → get_elem? xs j ≡ some (div (column_sum j zero_sum seeds) n)
  at_zero n seeds xs count at j lt = let e : 0 + j ≡ j = omega arith in rw e at (at j lt)

  zero-HasShort : (j : ℕ) (vs : List (List F)) → HasShort (suc j) vs → HasShort (suc (0 + j)) vs
  zero-HasShort j vs h = let e : j ≡ 0 + j = omega arith in rw e at h

  components_short :
      (count i j : ℕ) (n : F) (seeds : List (List F))
      → j < count
      → HasShort (suc (i + j)) seeds
      → components X count i n seeds ≡ panicked
  unfolding components
  components_short zero i j n seeds lt h = absurd (omega arith)
  components_short (suc count) i zero n seeds lt h =
      let e : i + 0 ≡ i = omega arith in rw (sum_at_short i (returned zero_sum) seeds (rw e at h))
  components_short (suc count) i (suc j) n seeds lt h =
      let e : i + suc j ≡ suc i + j = omega arith in
      rw (components_short count (suc i) j n seeds (omega arith) (rw e at h))
        (cons_run_panicked (divide X (sum_at X i (returned zero_sum) seeds) n))

  -- A seed shorter than `n`, by the column that it lacks.
  short_column :
      (n : ℕ) (seeds : List (List F))
      → HasShort n seeds
      → (j : ℕ) × (j < n) × HasShort (suc j) seeds
  short_column n [] h = absurd h
  short_column n (v ∷ vs) (inl lt) = (length v, lt, inl (omega arith))
  short_column n (v ∷ vs) (inr h) = let (j, lt, s) = short_column n vs h in (j, lt, inr s)

  -- With no seeds there is no query vector. With seeds that are all as long as the first, the vector
  -- has the first's dimensions, each the sum of its column divided by the number of seeds; entries
  -- past the first's length are ignored. With a seed shorter than the first the code panics.
  pub query_vector_lem :
      (compute_synapse_query_vector X [] ≡ returned none)
      × ((v : List F) (vs : List (List F))
          → IsLong (length v) (v ∷ vs)
          → (xs : List F) × (compute_synapse_query_vector X (v ∷ vs) ≡ returned (some xs))
            × (length xs ≡ length v)
            × ((j : ℕ)
                → j < length v
                → get_elem? xs j
                  ≡ some (div (column_sum j zero_sum (v ∷ vs)) (of_usize (length (v ∷ vs))))))
      × ((v : List F) (vs : List (List F))
          → HasShort (length v) (v ∷ vs)
          → compute_synapse_query_vector X (v ∷ vs) ≡ panicked)
  unfolding compute_synapse_query_vector
  query_vector_lem = (
    refl,
    (λ v vs long.
        let (xs, run, len, at) =
          components_long (length v) 0 (of_usize (length (v ∷ vs))) (v ∷ vs)
            (zero-IsLong (length v) (v ∷ vs) long) in
        (xs, rw run, len, at_zero (of_usize (length (v ∷ vs))) (v ∷ vs) xs (length v) at)),
    (λ v vs short.
        let (j, lt, h) = short_column (length v) (v ∷ vs) short in
        rw (
          components_short (length v) 0 j (of_usize (length (v ∷ vs))) (v ∷ vs) lt
            (zero-HasShort j (v ∷ vs) h))),
  )
