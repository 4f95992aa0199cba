-- ===== src/Inference/Budget/Threads/Alone.antt =====
-- The single statements of crates/af-inference-client/src/budget.rs, run by one thread alone,
-- against the whole functions.
use swarm_runtime.Prelude.{
  ℕ, Bytes, Bool, true, false, List, [], ◌∷◌, Option, none, some, ◌≡◌, refl, arith, eq_bytes,
  eq_bytes→eq, eq_bytes_refl, if◌then◌else◌, ◌||◌, Bool-cases, inl, inr,
}
use swarm_runtime.Inference.Budget.{ClaudeBudgetGate, used_by, store_zeros, maybe_reset_window}
use swarm_runtime.Inference.Budget.View.{zeroed, used_by-zeros, view, view_ext}
use swarm_runtime.Inference.Budget.Window.{IsExpired, reset-expired}
use swarm_runtime.Inference.Budget.Threads.{
  keys, store_entry, store_global, store_tenant, restart_window,
}

-- The iteration over the entries of the map.
unfoldable pub clear_entries : List Bytes → ClaudeBudgetGate → ClaudeBudgetGate
clear_entries [] gate = gate
clear_entries (k ∷ ks) gate = clear_entries ks (store_tenant gate k)

abbrev has_key : Bytes → List Bytes → Bool
has_key t [] = false
has_key t (k ∷ ks) = eq_bytes k t || has_key t ks

clash : (j k t : Bytes) → eq_bytes j t ≡ true → eq_bytes j k ≡ false → eq_bytes k t ≡ false
clash j k t here other = elim (Bool-cases (eq_bytes k t)) [
  | inl same ↦
      let e = eq_bytes→eq j t here in
      let f = eq_bytes→eq k t same in
      let g = eq_bytes_refl t in absurd (not_both (rw (e, f) at other) g)
  | inr apart ↦ apart
]
  where
    not_both : eq_bytes t t ≡ false → eq_bytes t t ≡ true → ⊥
    not_both f g = cc

used_by-store :
    (t k : Bytes) (l : List (Bytes × ℕ))
    → used_by t (store_entry k l) ≡ (if eq_bytes k t then zeroed (used_by t l) else used_by t l)
unfolding used_by store_entry
used_by-store t k [] = ground arith
used_by-store t k ((j, used) ∷ l) = elim (Bool-cases (eq_bytes j k)) [
  | inl same ↦ let e = eq_bytes→eq j k same in rw (same, ← e) (ground arith)
  | inr other ↦ elim (Bool-cases (eq_bytes j t)) [
    | inl here ↦ rw (other, here, clash j k t here other) refl
    | inr away ↦ rw (other, away) (used_by-store t k l)
  ]
]

used_by-unknown :
    (t : Bytes) (l : List (Bytes × ℕ)) → has_key t (keys l) ≡ false → used_by t l ≡ none
unfolding used_by
used_by-unknown t [] h = refl
used_by-unknown t ((k, used) ∷ l) h = ground (arith, used_by-unknown t l)

merge :
    (a b : Bool) (o : Option ℕ)
    → (if b then zeroed (if a then zeroed o else o) else (if a then zeroed o else o))
      ≡ (if a || b then zeroed o else o)
merge true true none = refl
merge true true (some n) = refl
merge true false o = refl
merge false b o = refl

used_by-clear :
    (t : Bytes) (ks : List Bytes) (gate : ClaudeBudgetGate)
    → used_by t (clear_entries ks gate).tenant_used
      ≡ (if has_key t ks then zeroed (used_by t gate.tenant_used) else used_by t gate.tenant_used)
unfolding clear_entries store_tenant
used_by-clear t [] gate = refl
used_by-clear t (k ∷ ks) gate =
    let ih = used_by-clear t ks (store_tenant gate k) in
    let one = used_by-store t k gate.tenant_used in
    rw (ih, one) (merge (eq_bytes k t) (has_key t ks) (used_by t gate.tenant_used))

-- All the statements of a reset, one after the other.
abbrev pub reset_alone : ClaudeBudgetGate → ℕ → ClaudeBudgetGate
reset_alone gate now =
    let cleared = store_global gate in
    restart_window (clear_entries (keys cleared.tenant_used) cleared) now

clear_others :
    (ks : List Bytes) (gate : ClaudeBudgetGate)
    → ((clear_entries ks gate).global_used ≡ gate.global_used)
      × ((clear_entries ks gate).global_limit ≡ gate.global_limit)
      × ((clear_entries ks gate).per_tenant_limit ≡ gate.per_tenant_limit)
      × ((clear_entries ks gate).window_duration_secs ≡ gate.window_duration_secs)
unfolding clear_entries store_tenant
clear_others [] gate = (refl, refl, refl, refl)
clear_others (k ∷ ks) gate = clear_others ks (store_tenant gate k)

entries_cleared :
    (t : Bytes) (gate : ClaudeBudgetGate)
    → used_by t (clear_entries (keys gate.tenant_used) gate).tenant_used
      ≡ used_by t (store_zeros gate.tenant_used)
entries_cleared t gate = elim (Bool-cases (has_key t (keys gate.tenant_used))) [
  | inl known ↦
      rw (used_by-clear t (keys gate.tenant_used) gate, known, used_by-zeros t gate.tenant_used)
        refl
  | inr unknown ↦
      let gone = used_by-unknown t gate.tenant_used unknown in
      rw
        (
          used_by-clear t (keys gate.tenant_used) gate,
          unknown,
          used_by-zeros t gate.tenant_used,
          gone,
        )
        refl
]

-- When the window is over, the single statements of the reset, run by one thread alone, leave what
-- `maybe_reset_window` leaves, up to the layout of the map.
pub reset_alone_agrees :
    (gate : ClaudeBudgetGate) (now : ℕ)
    → IsExpired gate now
    → view (reset_alone gate now) ≡ view (maybe_reset_window gate now)
unfolding restart_window store_global
reset_alone_agrees gate now over =
    let (global, limit, tenant_limit, duration) =
      clear_others (keys (store_global gate).tenant_used) (store_global gate) in
    rw (reset-expired gate now over) (
      view_ext _ _ global limit tenant_limit refl duration
        (λ t. entries_cleared t (store_global gate)))
