-- ===== src/State/Race/Available.antt =====
-- Freezes of one agent (crates/af-swarm-state/src/freeze.rs) over a store that answers: how many calls
-- are left to each, and which goes on.
use swarm_runtime.Prelude.{
  ℕ, ◌+◌, ◌-◌, ◌≤◌, ◌<◌, Bytes, List, [], ◌∷◌, none, some, ◌≡◌, ◌⊎◌, ap, arith, inl, inr, ◌==◌,
  if◌then◌else◌, Bool-cases, ==_iff,
}
use swarm_runtime.State.Error.{StateResult, ok, err, panic}
use swarm_runtime.State.Keys.{checkpoint_key}
use swarm_runtime.State.Keys.Families.{state-ne-memory}
use swarm_runtime.State.Store.{ETag, Platform, no_ttl, seconds}
use swarm_runtime.State.Store.Laws.{Guard, IsOcc, IsAvailable}
use swarm_runtime.State.Freeze.{FreezeInput, frozen_memory, frozen_state, checkpoint_of}
use swarm_runtime.State.Freeze.Writes.{state_key, memory_key}
use swarm_runtime.State.Race.{FreezePc, Freezers, Action, after_save, advance, act, run}
use swarm_runtime.State.Race.Winner.{IsBehind}

abbrev pub IsFinished : FreezePc → Type 0
IsFinished (FreezePc.finished r) = Unit
IsFinished _ = ⊥

-- How many calls a freeze still makes at most.
abbrev pub steps_left : FreezePc → ℕ
steps_left FreezePc.starting = 7
steps_left (FreezePc.memory_stamped stamp) = 6
steps_left (FreezePc.memory_saved m) = 5
steps_left (FreezePc.state_stamped m stamp) = 4
steps_left (FreezePc.state_saved m s) = 3
steps_left (FreezePc.sequenced m s seq) = 2
steps_left (FreezePc.checkpoint_stamped m s seq stamp) = 1
steps_left (FreezePc.finished r) = 0

-- How many calls of the freeze `i` are in a schedule.
abbrev pub turns : ℕ → List Action → ℕ
turns i [] = 0
turns i (Action.freeze_step k ∷ schedule) = (if k == i then 1 else 0) + turns i schedule
turns i (_ ∷ schedule) = turns i schedule

-- Only the first `n` freezes take part.
abbrev pub IsAmong : ℕ → Action → Type 0
IsAmong n (Action.freeze_step k) = k < n
IsAmong n _ = Unit

after_save_left :
    (p : FreezePc) (n : ℕ) (r : StateResult ETag)
    → steps_left p ≤ n
    → steps_left (after_save p r) ≤ n
after_save_left p n (ok tag) h = h
after_save_left p n (err e) h = omega arith
after_save_left p n panic h = omega arith

less_both : (l m n x y : ℕ) → l ≤ m - y → m ≤ n - x → l ≤ n - (x + y)
less_both l m n x y h k = omega arith

module _ (E : Platform) where
  advance_left :
      (input : FreezeInput) (p : FreezePc) (w : E.World)
      → steps_left (advance E input p w).0 ≤ steps_left p - 1
  unfolding advance
  advance_left input FreezePc.starting w = omega arith
  advance_left input (FreezePc.memory_stamped stamp) w =
      after_save_left (FreezePc.memory_saved (frozen_memory input.working_memory stamp)) 5 _
        (omega arith)
  advance_left input (FreezePc.memory_saved m) w = omega arith
  advance_left input (FreezePc.state_stamped m stamp) w =
      let s = frozen_state input.state m.version stamp in
      after_save_left (FreezePc.state_saved m s) 3 _ (omega arith)
  advance_left input (FreezePc.state_saved m s) w = omega arith
  advance_left input (FreezePc.sequenced m s seq) w = omega arith
  advance_left input (FreezePc.checkpoint_stamped m s seq stamp) w = omega arith
  advance_left input (FreezePc.finished r) w = omega arith

  act_left :
      (inputs : ℕ → FreezeInput) (s : Freezers E) (k i : ℕ)
      → steps_left ((act E inputs s (Action.freeze_step k)).pc i)
        ≤ steps_left (s.pc i) - (if k == i then 1 else 0)
  unfolding act
  act_left inputs s k i = elim (Bool-cases (k == i)) [
    | inl same ↦
        let here : k ≡ i = (==_iff k i).0 same in
        let less : steps_left (advance E (inputs k) (s.pc k) s.world).0 ≤ steps_left (s.pc i) - 1 =
          rw (← (ap (λ x. s.pc x) here)) (advance_left (inputs k) (s.pc k) s.world) in
        rw same less
    | inr other ↦ rw other (omega arith)
  ]

  pub run_left :
      (inputs : ℕ → FreezeInput) (schedule : List Action) (s : Freezers E) (i : ℕ)
      → steps_left ((run E inputs s schedule).pc i) ≤ steps_left (s.pc i) - turns i schedule
  unfolding run act
  run_left inputs [] s i = omega arith
  run_left inputs (Action.freeze_step k ∷ schedule) s i =
      let ih = run_left inputs schedule (act E inputs s (Action.freeze_step k)) i in
      let one = act_left inputs s k i in
      less_both _ _ (steps_left (s.pc i)) (if k == i then 1 else 0) (turns i schedule) ih one
  run_left inputs (Action.read_key k ∷ schedule) s i =
      run_left inputs schedule (act E inputs s (Action.read_key k)) i
  run_left inputs (Action.read_clock ∷ schedule) s i =
      run_left inputs schedule (act E inputs s Action.read_clock) i

-- The freeze that got its working memory written is on its way to success: its state is still the
-- stored one's successor, or written.
abbrev pub IsOnCourse : (E : Platform) (occ : IsOcc E) → FreezeInput → FreezePc → E.World → Type 0
IsOnCourse E occ input FreezePc.starting w = ⊥
IsOnCourse E occ input (FreezePc.memory_stamped stamp) w = ⊥
IsOnCourse E occ input (FreezePc.memory_saved m) w =
    Guard (some input.state_etag) (occ.view w (state_key input))
IsOnCourse E occ input (FreezePc.state_stamped m stamp) w =
    Guard (some input.state_etag) (occ.view w (state_key input))
IsOnCourse E occ input (FreezePc.finished (err e)) w = ⊥
IsOnCourse E occ input (FreezePc.finished panic) w = ⊥
IsOnCourse E occ input _ w = Unit

-- The freeze has not tried to write.
abbrev pub IsFresh : FreezePc → Type 0
IsFresh FreezePc.starting = Unit
IsFresh (FreezePc.memory_stamped stamp) = Unit
IsFresh _ = ⊥

pub IsFresh-IsBehind : (p : FreezePc) → IsFresh p → IsBehind p
IsFresh-IsBehind FreezePc.starting h = tt
IsFresh-IsBehind (FreezePc.memory_stamped stamp) h = tt
IsFresh-IsBehind _ h = absurd h

pub course_not-IsBehind :
    (E : Platform) (occ : IsOcc E) (input : FreezeInput) (p : FreezePc) (w : E.World)
    → IsOnCourse E occ input p w
    → ¬ IsBehind p
course_not-IsBehind E occ input FreezePc.starting w h b = h
course_not-IsBehind E occ input (FreezePc.memory_stamped stamp) w h b = h
course_not-IsBehind E occ input (FreezePc.finished (err e)) w h b = h
course_not-IsBehind E occ input (FreezePc.finished panic) w h b = h
course_not-IsBehind E occ input _ w h b = b

module _ (E : Platform) (occ : IsOcc E) (avail : IsAvailable E occ) where
  pub course_kept :
      (input : FreezeInput) (p : FreezePc) (w w' : E.World)
      → occ.view w' (state_key input) ≡ occ.view w (state_key input)
      → IsOnCourse E occ input p w
      → IsOnCourse E occ input p w'
  course_kept input (FreezePc.memory_saved m) w w' same h = rw same h
  course_kept input (FreezePc.state_stamped m stamp) w w' same h = rw same h
  course_kept input (FreezePc.finished (ok seq)) w w' same h = tt
  course_kept input (FreezePc.finished (err e)) w w' same h = absurd h
  course_kept input (FreezePc.finished panic) w w' same h = absurd h
  course_kept input FreezePc.starting w w' same h = absurd h
  course_kept input (FreezePc.memory_stamped stamp) w w' same h = absurd h
  course_kept input (FreezePc.state_saved m s) w w' same h = tt
  course_kept input (FreezePc.sequenced m s seq) w w' same h = tt
  course_kept input (FreezePc.checkpoint_stamped m s seq stamp) w w' same h = tt

  pub course_advances :
      (input : FreezeInput) (p : FreezePc) (w : E.World)
      → IsOnCourse E occ input p w
      → IsOnCourse E occ input (advance E input p w).0 (advance E input p w).1
  unfolding advance
  course_advances input FreezePc.starting w h = absurd h
  course_advances input (FreezePc.memory_stamped stamp) w h = absurd h
  course_advances input (FreezePc.memory_saved m) w h = rw (occ.view-now w (state_key input)) h
  course_advances input (FreezePc.state_stamped m stamp) w h =
      let s = frozen_state input.state m.version stamp in
      let (new, done) =
        avail.save_total (state_key input) (E.encode_state s) (some input.state_etag) no_ttl w h in
      rw done tt
  course_advances input (FreezePc.state_saved m s) w h = tt
  course_advances input (FreezePc.sequenced m s seq) w h = tt
  course_advances input (FreezePc.checkpoint_stamped m s seq stamp) w h =
      let digest = E.sha256 (E.encode_state s ∷ E.encode_memory m ∷ []) in
      let record_of =
        checkpoint_of E (record input { state = s; working_memory = m }) seq digest stamp in
      let (new, done) =
        avail.save_total (checkpoint_key input.tenant_id input.agent_id seq)
          (E.encode_checkpoint record_of) none no_ttl w tt in
      rw done tt
  course_advances input (FreezePc.finished (ok seq)) w h = tt
  course_advances input (FreezePc.finished (err e)) w h = absurd h
  course_advances input (FreezePc.finished panic) w h = absurd h

  -- A freeze whose two ETags are the stored ones goes on, and its memory write succeeds.
  pub IsFresh-advances :
      (input : FreezeInput) (p : FreezePc) (w : E.World)
      → IsFresh p
      → Guard (some input.memory_etag) (occ.view w (memory_key input))
      → Guard (some input.state_etag) (occ.view w (state_key input))
      → (IsFresh (advance E input p w).0
          × ((j : Bytes) → occ.view (advance E input p w).1 j ≡ occ.view w j))
        ⊎ IsOnCourse E occ input (advance E input p w).0 (advance E input p w).1
  unfolding advance
  IsFresh-advances input FreezePc.starting w fresh gm gs = inl (tt, λ j. occ.view-now w j)
  IsFresh-advances input (FreezePc.memory_stamped stamp) w fresh gm gs =
      let m = frozen_memory input.working_memory stamp in
      let (new, done) =
        avail.save_total (memory_key input) (E.encode_memory m) (some input.memory_etag)
          (seconds 86400) w gm in
      let other =
        occ.save_other (memory_key input) (E.encode_memory m) (some input.memory_etag)
          (seconds 86400) w (state_key input) (state-ne-memory input.tenant_id input.agent_id) in
      inr (rw done (rw other gs))
  IsFresh-advances input _ w fresh gm gs = absurd fresh
