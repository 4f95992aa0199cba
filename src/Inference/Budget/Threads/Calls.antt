-- ===== src/Inference/Budget/Threads/Calls.antt =====
-- The calls of crates/af-inference-client/src/budget.rs as a thread makes them that is alone, against
-- `has_capacity` and `record_usage`.
use swarm_runtime.Prelude.{
  ℕ, ◌≤◌, Bytes, Bool, true, false, List, [], ◌∷◌, refl, sym, ap, ◌∙◌, ◌≡◌, arith, ◌&&◌, Bool-cases,
  inl, inr,
}
use native.Mathlib.Decide.{dec_lt}
use swarm_runtime.Inference.Budget.{
  ClaudeBudgetGate, check_global, check_tenant, has_capacity, maybe_reset_window, record_usage,
  elapsed_secs,
}
use swarm_runtime.Inference.Budget.Window.{IsExpired, reset-open}
use swarm_runtime.Inference.Budget.Threads.{Shared, Pc, Move, keys, store_global, store_tenant}
use swarm_runtime.Inference.Budget.View.{view, capacity, checks_view}
use swarm_runtime.Inference.Budget.Threads.Alone.{clear_entries, reset_alone, reset_alone_agrees}

-- The steps of one thread, one after the other.
pub data Moves (m : ℕ) : Shared → Pc → Shared → Pc → Type 0 where
  none_left : {s : Shared} {p : Pc} → Moves m s p s p
  next :
      {s s' s'' : Shared} {p p' p'' : Pc}
      → Move m s p s' p'
      → Moves m s' p' s'' p''
      → Moves m s p s'' p''

Moves-then :
    (m : ℕ) (s s' s'' : Shared) (p p' p'' : Pc)
    → Moves m s p s' p'
    → Moves m s' p' s'' p''
    → Moves m s p s'' p''
Moves-then m s _ s'' p _ p'' Moves.none_left rest = rest
Moves-then m s s' s'' p p' p'' (Moves.next move more) rest =
    Moves.next move (Moves-then m _ s' s'' _ p' p'' more rest)

abbrev pub unlocked : ClaudeBudgetGate → Shared
unlocked gate = record { gate = gate; locked = false }

abbrev held : ClaudeBudgetGate → Shared
held gate = record { gate = gate; locked = true }

Moves-clear :
    (m : ℕ) (t : Bytes) (ks : List Bytes) (gate : ClaudeBudgetGate)
    → Moves m (held gate) (Pc.clearing t ks) (held (clear_entries ks gate)) (Pc.clearing t [])
unfolding clear_entries
Moves-clear m t [] gate = Moves.none_left
Moves-clear m t (k ∷ ks) gate =
    Moves.next Move.clear_next (Moves-clear m t ks (store_tenant gate k))

-- Up to the checks of the counters.
record Reset (m : ℕ) (gate : ClaudeBudgetGate) (t : Bytes) (now : ℕ) : Type 0 where
  after : ClaudeBudgetGate
  moves : Moves m (unlocked gate) Pc.idle (unlocked after) (Pc.at_global t)
  alike : view after ≡ view (maybe_reset_window gate now)

Reset-moves : (m : ℕ) (gate : ClaudeBudgetGate) (t : Bytes) (now : ℕ) → Reset m gate t now
unfolding store_global
Reset-moves m gate t now =
    elim (dec_lt (elapsed_secs gate.window_start now) gate.window_duration_secs) [
      | yes early ↦
          let open_still : ¬ IsExpired gate now = λ over. absurd (omega arith) in
          record {
            after = gate;
            moves = Moves.next (Move.ask t) (
                Moves.next (Move.lock refl)
                  (Moves.next (Move.keep_window now open_still) Moves.none_left));
            alike = rw (reset-open gate now open_still) refl;
          }
      | no late ↦
          let over : IsExpired gate now = omega arith in
          record {
            after = reset_alone gate now;
            moves = Moves.next (Move.ask t) (
                Moves.next (Move.lock refl) (
                  Moves.next (Move.clear_global now over) (
                    Moves-then m _ _ _ _ _ _
                      (Moves-clear m t (keys gate.tenant_used) (store_global gate))
                      (Moves.next (Move.restart now) Moves.none_left))));
            alike = reset_alone_agrees gate now over;
          }
    ]

-- Where `has_capacity` ends, by its result.
abbrev pub answered : Bytes → Bool → Pc
answered t true = Pc.allowed t
answered t false = Pc.idle

checks :
    (m : ℕ) (gate : ClaudeBudgetGate) (t : Bytes)
    → Moves m
        (unlocked gate)
        (Pc.at_global t)
        (unlocked gate)
        (answered t (check_global gate && check_tenant gate t))
checks m gate t = elim (Bool-cases (check_global gate)) [
  | inl left ↦ elim (Bool-cases (check_tenant gate t)) [
    | inl room ↦
        rw (left, room)
          (Moves.next (Move.global_left left) (Moves.next (Move.tenant_left room) Moves.none_left))
    | inr full ↦
        rw (left, full)
          (Moves.next (Move.global_left left) (Moves.next (Move.tenant_spent full) Moves.none_left))
  ]
  | inr spent ↦ rw spent (Moves.next (Move.global_spent spent) Moves.none_left)
]

-- A thread that is alone makes the call `has_capacity` by steps that end with the request let through
-- exactly if the call returns true, at a gate that differs from the one that the call leaves in no
-- more than the layout of the map; and by two steps it records what the request used, at most the `m` tokens a request may use, at the
-- gate that `record_usage` leaves.
pub calls_alone :
    (m : ℕ) (gate : ClaudeBudgetGate) (t : Bytes) (now n : ℕ)
    → n ≤ m
    → ((after : ClaudeBudgetGate) × Moves m
          (unlocked gate)
          Pc.idle
          (unlocked after)
          (answered t (has_capacity gate t now).0)
        × (view after ≡ view (has_capacity gate t now).1))
      × Moves m (unlocked gate) (Pc.allowed t) (unlocked (record_usage gate t n)) Pc.idle
unfolding has_capacity record_usage
calls_alone m gate t now n small =
    let r = Reset-moves m gate t now in
    let reset = maybe_reset_window gate now in
    let same : (check_global r.after && check_tenant r.after t)
        ≡ (check_global reset && check_tenant reset t) =
      checks_view r.after t ∙ ap (λ b. capacity b t) r.alike ∙ sym (checks_view reset t) in
    (
      (r.after, Moves-then m _ _ _ _ _ _ r.moves (rw (← same) (checks m r.after t)), r.alike),
      Moves.next (Move.count_global n small) (Moves.next Move.count_tenant Moves.none_left),
    )
