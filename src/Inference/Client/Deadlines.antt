-- ===== src/Inference/Client/Deadlines.antt =====
-- The deadlines of crates/af-inference-client/src/client.rs, by the code of the task type.
use swarm_runtime.Prelude.{ℕ, ℤ, pos, negsuc, ◌≡◌, ◌≢◌, ◌⊎◌, inl, inr, refl, ap, arith}
use swarm_runtime.Inference.Proto.{task_type_of}
use swarm_runtime.Inference.Client.{
  deadline_for_task, deadline_classification_s, deadline_orchestration_s, deadline_standard_s,
}

-- The task types that plan or reason.
abbrev pub IsLong : ℤ → Type 0
IsLong code = (code ≡ pos 1) ⊎ (code ≡ pos 5)

standard : (n : ℕ) → n ≢ 1 → n ≢ 3 → n ≢ 5 → deadline_for_task (pos n) ≡ deadline_standard_s
unfolding deadline_for_task task_type_of
standard n a b c = ground arith

-- A classification has the shortest deadline, orchestration and reasoning the longest, and every other
-- code, a negative or an unknown one included, the standard one.
pub deadlines :
    (code : ℤ)
    → (code ≡ pos 3 → deadline_for_task code ≡ deadline_classification_s)
      × (IsLong code → deadline_for_task code ≡ deadline_orchestration_s)
      × (code ≢ pos 3 → ¬ IsLong code → deadline_for_task code ≡ deadline_standard_s)
unfolding deadline_for_task task_type_of
deadlines (negsuc n) =
    ((λ h. absurd (cc)), (λ h. elim h [ inl e ↦ absurd (cc) | inr e ↦ absurd (cc) ]), (λ _ _. refl))
deadlines (pos n) = (
  ap deadline_for_task,
  λ h. elim h [ inl e ↦ ap deadline_for_task e | inr e ↦ ap deadline_for_task e ],
  λ a b. standard n (λ e. b (inl (ap pos e))) (λ e. a (ap pos e)) (λ e. b (inr (ap pos e))),
)
