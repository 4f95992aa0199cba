-- ===== src/Inference/Budget/Layout.antt =====
-- Gates of crates/af-inference-client/src/budget.rs up to the layout of the map of the tenants' counters:
-- a DashMap promises no order of its entries, and an association list has one.
use swarm_runtime.Prelude.{
  ℕ, Bytes, Bool, List, [], ◌∷◌, some, ◌≡◌, refl, sym, ap, ◌∙◌, arith, eq_bytes, eq_bytes→eq,
  eq_bytes_refl, add64, Bool-cases, inl, inr,
}
use mathlib.Core.List.{Perm, Permᴰ}
use mathlib.Core.Logic.{∥∥₁_elim}
use mathlib.Core.Path.{fun_ext}
use mathlib.Core.Quot
use mathlib.Core.Quot.{Quot, Quot-set}
use swarm_runtime.Inference.Budget.{ClaudeBudgetGate, record_usage}
use swarm_runtime.Inference.Budget.Usage.{used_or_zero, record_all}
use swarm_runtime.Inference.Budget.View.{
  Budget, Call, view, spend, promised, answers, answers-promised, view-record,
}

abbrev pub Gate : Type 0
Gate = Quot (λ g h. view g ≡ view h)

abbrev pub up_to_layout : ClaudeBudgetGate → Gate
up_to_layout = Quot.mk

-- `record_usage` on such gates.
unfoldable pub record_on : Bytes → ℕ → Gate → Gate
record_on t n =
    Quot.lift Quot-set (λ g. up_to_layout (record_usage g t n))
      λ g h e. Quot.sound (view-record g t n ∙ ap (λ b. spend b t n) e ∙ sym (view-record h t n))

-- The answers to any calls.
unfoldable pub answers_on : List Call → Gate → List Bool
answers_on calls =
    Quot.lift (hlevel) (λ g. answers g calls)
      λ g h e.
        answers-promised calls g ∙ ap (λ b. promised b calls) e ∙ sym (answers-promised calls h)

add_turned : (u m n : ℕ) → add64 (add64 u m) n ≡ add64 (add64 u n) m
add_turned u m n = omega arith

spend_used :
    (b : Budget) (s t x : Bytes) (m n : ℕ)
    → (spend (spend b s m) t n).used x ≡ (spend (spend b t n) s m).used x
spend_used b s t x m n = elim (Bool-cases (eq_bytes s x)) [
  | inl sx ↦ elim (Bool-cases (eq_bytes t x)) [
    | inl tx ↦
        let s_is = eq_bytes→eq s x sx in
        let t_is = eq_bytes→eq t x tx in
        rw (s_is, t_is, eq_bytes_refl x) (ap some (add_turned (used_or_zero (b.used x)) m n))
    | inr to ↦ let s_is = eq_bytes→eq s x sx in rw (s_is, to, eq_bytes_refl x) refl
  ]
  | inr so ↦ elim (Bool-cases (eq_bytes t x)) [
    | inl tx ↦ let t_is = eq_bytes→eq t x tx in rw (t_is, so, eq_bytes_refl x) refl
    | inr to ↦ rw (so, to) refl
  ]
]

spend_turned :
    (b : Budget) (s t : Bytes) (m n : ℕ) → spend (spend b s m) t n ≡ spend (spend b t n) s m
spend_turned b s t m n = λ i. record b {
  global_used = add_turned b.global_used m n i;
  used = fun_ext (λ x. spend_used b s t x m n) i;
}

record_on_turned :
    (s t : Bytes) (m n : ℕ) (g : Gate)
    → record_on t n (record_on s m g) ≡ record_on s m (record_on t n g)
unfolding record_on
record_on_turned s t m n =
    Quot.ind (λ g. Quot-set _ _)
      λ g. Quot.sound (
        view-record (record_usage g s m) t n
        ∙ ap (λ b. spend b t n) (view-record g s m)
        ∙ spend_turned (view g) s t m n
        ∙ sym (view-record (record_usage g t n) s m ∙ ap (λ b. spend b s m) (view-record g t n)))

abbrev pub record_all_on : List (Bytes × ℕ) → Gate → Gate
record_all_on [] g = g
record_all_on ((t, n) ∷ log) g = record_all_on log (record_on t n g)

up_to_layout-record_all :
    (log : List (Bytes × ℕ)) (g : ClaudeBudgetGate)
    → up_to_layout (record_all g log) ≡ record_all_on log (up_to_layout g)
unfolding record_on
up_to_layout-record_all [] g = refl
up_to_layout-record_all ((t, n) ∷ log) g = up_to_layout-record_all log (record_usage g t n)

record_all_on-Permᴰ :
    {a b : List (Bytes × ℕ)} → Permᴰ a b → (g : Gate) → record_all_on a g ≡ record_all_on b g
record_all_on-Permᴰ Permᴰ.nil g = refl
record_all_on-Permᴰ (Permᴰ.cons {a = x} {b = y} {l₁ = l} e d) g =
    ap (λ (r : Bytes × ℕ). record_all_on l (record_on r.0 r.1 g)) e ∙ record_all_on-Permᴰ d _
record_all_on-Permᴰ (Permᴰ.swap {a = x} {b = y} {l = l} e d) g =
    ap (record_all_on l) (sym (record_on_turned y.0 x.0 y.1 x.1 g))
    ∙ (λ i. record_all_on l (record_on (e i).0 (e i).1 (record_on (d i).0 (d i).1 g)))
record_all_on-Permᴰ (Permᴰ.trans c d) g = record_all_on-Permᴰ c g ∙ record_all_on-Permᴰ d g

-- In whatever order requests are recorded, one after the other, the gates that they lead to are the
-- same up to the layout of the map, and answer whatever calls come later alike.
pub record_order_hidden :
    (gate : ClaudeBudgetGate) (log order : List (Bytes × ℕ)) (calls : List Call)
    → Perm log order
    → (up_to_layout (record_all gate log) ≡ up_to_layout (record_all gate order))
      × (answers (record_all gate log) calls ≡ answers (record_all gate order) calls)
unfolding answers_on
record_order_hidden gate log order calls same =
    let one : up_to_layout (record_all gate log) ≡ up_to_layout (record_all gate order) =
      ∥∥₁_elim same (Quot-set _ _) λ d.
        up_to_layout-record_all log gate
        ∙ record_all_on-Permᴰ d (up_to_layout gate)
        ∙ sym (up_to_layout-record_all order gate) in
    (one, ap (answers_on calls) one)
