-- ===== src/State/Race/Success.antt =====
-- Which of several freezes of one agent (crates/af-swarm-state/src/freeze.rs) succeed, that start from the
-- stored ETags over a store that answers.
use swarm_runtime.Prelude.{
  ℕ, ◌≤◌, ◌<◌, Bytes, List, [], ◌∷◌, ◌≡◌, ◌≢◌, ◌⊎◌, refl, sym, arith, inl, inr, All, some,
}
use native.Mathlib.Decide.{ℕ_discrete}
use swarm_runtime.Prelude.Families.{update_here, update_other, update_case}
use swarm_runtime.State.Error.{ok, err, panic}
use swarm_runtime.State.Store.{ETag, Platform}
use swarm_runtime.State.Store.Laws.{Guard, IsOcc, IsAvailable}
use swarm_runtime.State.Freeze.{FreezeInput}
use swarm_runtime.State.Freeze.Writes.{state_key, memory_key}
use swarm_runtime.State.Race.{FreezePc, Freezers, Action, advance, act, run, init}
use swarm_runtime.State.Race.Winner.{IsRace, IsBehind}
use swarm_runtime.State.Race.Loser.{loser_advances, IsBehind-advances}
use swarm_runtime.State.Race.Outcome.{
  IsWinner, IsWinner-step, other_step, IsWinner-look, same_state_key, IsStale-for,
}
use swarm_runtime.State.Race.Available.{
  IsFinished, IsAmong, IsFresh, IsOnCourse, steps_left, turns, course_kept, course_advances,
  course_not-IsBehind, IsFresh-advances, IsFresh-IsBehind, run_left,
}

module _ (E : Platform) (occ : IsOcc E) (avail : IsAvailable E occ) {t a : Bytes} {e : ETag}
    (inputs : ℕ → FreezeInput) (race : IsRace t a e inputs) where
  -- Both ETags of every freeze are the stored ones.
  pub record IsCurrent (w : E.World) : Type 0 where
    pub memory : (j : ℕ) → Guard (some (inputs j).memory_etag) (occ.view w (memory_key (inputs j)))
    pub state : (j : ℕ) → Guard (some (inputs j).state_etag) (occ.view w (state_key (inputs j)))

  IsCurrent-kept :
      (w w' : E.World) → ((j : Bytes) → occ.view w' j ≡ occ.view w j) → IsCurrent w → IsCurrent w'
  IsCurrent-kept w w' same h = record {
    memory = λ j. rw (same (memory_key (inputs j))) (h.memory j);
    state = λ j. rw (same (state_key (inputs j))) (h.state j);
  }

  record IsAhead (n : ℕ) (s : Freezers E) (i : ℕ) : Type 0 where
    among : i < n
    winner : IsWinner E occ inputs race s i
    on_course : IsOnCourse E occ (inputs i) (s.pc i) s.world

  record IsOpen (s : Freezers E) : Type 0 where
    fresh : (j : ℕ) → IsFresh (s.pc j)
    current : IsCurrent s.world

  abbrev IsLive : ℕ → Freezers E → Type 0
  IsLive n s = IsOpen s ⊎ ((i : ℕ) × IsAhead n s i)

  open_step :
      (n : ℕ) (s : Freezers E) (k : ℕ)
      → k < n
      → IsOpen s
      → IsLive n (act E inputs s (Action.freeze_step k))
  unfolding act
  open_step n s k lt h =
      let p = (advance E (inputs k) (s.pc k) s.world).0 in
      let w = (advance E (inputs k) (s.pc k) s.world).1 in
      elim (IsFresh-advances E occ avail (inputs k) (s.pc k) s.world (h.fresh k)
        (h.current.memory k) (h.current.state k)) [
          | inl (fresh, same) ↦ inl (record {
            fresh = λ j. update_case IsFresh s.pc k p j fresh (h.fresh j);
            current = IsCurrent-kept s.world w same h.current;
          })
          | inr course ↦
              elim (IsBehind-advances E occ (inputs k) (s.pc k) s.world
                (IsFresh-IsBehind (s.pc k) (h.fresh k))) [
                  | inl behind ↦ absurd (course_not-IsBehind E occ (inputs k) p w course behind)
                  | inr (written, stale) ↦ inr (
                    k,
                    record {
                      among = lt;
                      winner = record {
                        written = rw (update_here s.pc k p) written;
                        stale = stale;
                        others = λ j ne.
                            rw (update_other s.pc k j p ne) (IsFresh-IsBehind (s.pc j) (h.fresh j));
                      };
                      on_course = rw (update_here s.pc k p) course;
                    },
                  )
                ]
        ]

  IsAhead-step :
      (n : ℕ) (s : Freezers E) (k i : ℕ)
      → IsAhead n s i
      → IsAhead n (act E inputs s (Action.freeze_step k)) i
  unfolding act
  IsAhead-step n s k i h = elim (ℕ_discrete k i) [
    | yes same ↦ rw same (record {
      among = h.among;
      winner = IsWinner-step E occ inputs race s i h.winner;
      on_course =
          rw (update_here s.pc i (advance E (inputs i) (s.pc i) s.world).0)
            (course_advances E occ avail (inputs i) (s.pc i) s.world h.on_course);
    })
    | no other ↦
        let behind = h.winner.others k other in
        let stale = IsStale-for E occ inputs race i k s.world h.winner.stale in
        let p = (advance E (inputs k) (s.pc k) s.world).0 in
        let w = (advance E (inputs k) (s.pc k) s.world).1 in
        let (_, _, same) = loser_advances E occ (inputs k) (s.pc k) s.world behind stale in
        let same_state : occ.view w (state_key (inputs i))
            ≡ occ.view s.world (state_key (inputs i)) =
          rw (same_state_key E occ inputs race i k) same in
        record {
          among = h.among;
          winner = other_step E occ inputs race s i k other h.winner;
          on_course =
              rw (update_other s.pc k i p (λ e. other (sym e)))
                (course_kept E occ avail (inputs i) (s.pc i) s.world w same_state h.on_course);
        }
  ]

  IsLive-look :
      (n : ℕ) (s : Freezers E) (w : E.World)
      → ((j : Bytes) → occ.view w j ≡ occ.view s.world j)
      → IsLive n s
      → IsLive n (record s { world = w })
  IsLive-look n s w same (inl h) =
      inl (record { fresh = h.fresh; current = IsCurrent-kept s.world w same h.current })
  IsLive-look n s w same (inr (i, h)) = inr (
    i,
    record {
      among = h.among;
      winner = IsWinner-look E occ inputs race s w i same h.winner;
      on_course =
          course_kept E occ avail (inputs i) (s.pc i) s.world w (same (state_key (inputs i)))
            h.on_course;
    },
  )

  freeze_step-IsLive :
      (n : ℕ) (s : Freezers E) (k : ℕ)
      → k < n
      → IsLive n s
      → IsLive n (act E inputs s (Action.freeze_step k))
  freeze_step-IsLive n s k lt (inl h) = open_step n s k lt h
  freeze_step-IsLive n s k lt (inr (i, h)) = inr (i, IsAhead-step n s k i h)

  run-IsLive :
      (n : ℕ) (schedule : List Action) (s : Freezers E)
      → All (IsAmong n) schedule
      → IsLive n s
      → IsLive n (run E inputs s schedule)
  unfolding run act
  run-IsLive n [] s among h = h
  run-IsLive n (Action.freeze_step k ∷ schedule) s (lt, among) h =
      run-IsLive n schedule _ among (freeze_step-IsLive n s k lt h)
  run-IsLive n (Action.read_key k ∷ schedule) s (_, among) h =
      run-IsLive n schedule _ among (IsLive-look n s _ (λ j. occ.view-get k s.world j) h)
  run-IsLive n (Action.read_clock ∷ schedule) s (_, among) h =
      run-IsLive n schedule _ among (IsLive-look n s _ (λ j. occ.view-now s.world j) h)

  course_succeeds :
      (input : FreezeInput) (p : FreezePc) (w : E.World)
      → steps_left p ≤ 0
      → IsOnCourse E occ input p w
      → (seq : ℕ) × (p ≡ FreezePc.finished (ok seq))
  course_succeeds input (FreezePc.finished (ok seq)) w left h = (seq, refl)
  course_succeeds input (FreezePc.finished (err x)) w left h = absurd h
  course_succeeds input (FreezePc.finished panic) w left h = absurd h
  course_succeeds input _ w left h = absurd (omega arith)

  none_left : (p : FreezePc) → steps_left p ≤ 0 → IsFinished p
  none_left (FreezePc.finished r) h = tt
  none_left _ h = absurd (omega arith)

  fresh_left : (p : FreezePc) → IsFresh p → 6 ≤ steps_left p
  fresh_left FreezePc.starting h = omega arith
  fresh_left (FreezePc.memory_stamped stamp) h = omega arith
  fresh_left _ h = absurd h

  -- Of `n` freezes that start from the stored ETags, over a store that answers, exactly one succeeds,
  -- however their calls and those of hydrations mix: once each has made seven calls, one of them has
  -- returned a sequence number, and every other has returned something else.
  pub one_freeze_succeeds :
      (n : ℕ) (schedule : List Action) (w : E.World)
      → 0 < n
      → IsCurrent w
      → All (IsAmong n) schedule
      → ((i : ℕ) → i < n → 7 ≤ turns i schedule)
      → (i : ℕ) × (i < n)
        × ((seq : ℕ) × ((run E inputs (init E w) schedule).pc i ≡ FreezePc.finished (ok seq)))
        × ((j : ℕ)
            → j < n
            → j ≢ i
            → IsFinished ((run E inputs (init E w) schedule).pc j)
              × IsBehind ((run E inputs (init E w) schedule).pc j))
  one_freeze_succeeds n schedule w some_freeze current among enough =
      let s = run E inputs (init E w) schedule in
      let left : (j : ℕ) → j < n → steps_left (s.pc j) ≤ 0 =
        λ j lt. let l = run_left E inputs schedule (init E w) j in omega (arith, enough j lt) in
      elim (run-IsLive n schedule (init E w) among
        (inl (record { fresh = λ j. tt; current = current }))) [
          | inl h ↦ absurd (omega (arith, fresh_left (s.pc 0) (h.fresh 0), left 0 some_freeze))
          | inr (i, h) ↦ (
            i,
            h.among,
            course_succeeds (inputs i) (s.pc i) s.world (left i h.among) h.on_course,
            λ j lt ne. (none_left (s.pc j) (left j lt), h.winner.others j ne),
          )
        ]
