-- ===== src/State/Race/Outcome.antt =====
-- How freezes of one agent end that start from the same ETags (crates/af-swarm-state/src/freeze.rs),
-- and what a hydration (crates/af-swarm-state/src/hydrate.rs) finds after them.
use swarm_runtime.Prelude.{ℕ, Bytes, List, [], ◌∷◌, ◌≡◌, ◌≢◌, ◌⊎◌, refl, sym, inl, inr}
use native.Mathlib.Decide.{ℕ_discrete}
use swarm_runtime.Prelude.Families.{update_here, update_other, update_case}
use swarm_runtime.State.Error.{ok}
use swarm_runtime.State.Store.{ETag, Platform}
use swarm_runtime.State.Store.Laws.{IsOcc, IsAvailable, IsLossless}
use swarm_runtime.State.Freeze.{FreezeInput, frozen_memory, frozen_state}
use swarm_runtime.State.Exec.{Exec}
use swarm_runtime.State.Proto.{Timestamp, WorkingMemoryRecord}
use swarm_runtime.State.Hydrate.{AgentHydrationManager, hydrate_with}
use swarm_runtime.State.Lifecycle.{thawed, hydrate_consistent}
use swarm_runtime.State.Freeze.Writes.{state_key, memory_key}
use swarm_runtime.State.Race.{FreezePc, Freezers, Action, advance, act, run, init}
use swarm_runtime.State.Race.Winner.{
  IsRace, IsBehind, HasWritten, HasBoth, winner_advances, written_kept,
}
use swarm_runtime.State.Race.Loser.{IsStale, loser_advances, IsBehind-advances}

module _ (E : Platform) (occ : IsOcc E) {t a : Bytes} {e : ETag} (inputs : ℕ → FreezeInput)
    (race : IsRace t a e inputs) where
  pub same_memory_key : (i j : ℕ) → memory_key (inputs i) ≡ memory_key (inputs j)
  same_memory_key i j = rw (race.tenant i, race.agent i, race.tenant j, race.agent j) refl

  pub same_state_key : (i j : ℕ) → state_key (inputs i) ≡ state_key (inputs j)
  same_state_key i j = rw (race.tenant i, race.agent i, race.tenant j, race.agent j) refl

  pub IsStale-for :
      (i j : ℕ) (w : E.World) → IsStale E occ (inputs i) w → IsStale E occ (inputs j) w
  IsStale-for i j w h same = h (rw (same_memory_key i j, race.etag i, ← (race.etag j)) same)

  -- The freeze `i` is the one that got its working memory written.
  pub record IsWinner (s : Freezers E) (i : ℕ) : Type 0 where
    pub written : HasWritten E occ (inputs i) (s.pc i) s.world
    pub stale : IsStale E occ (inputs i) s.world
    pub others : (j : ℕ) → j ≢ i → IsBehind (s.pc j)

  -- No freeze has written anything, or one has and the others have not.
  abbrev IsRaced : Freezers E → Type 0
  IsRaced s = ((j : ℕ) → IsBehind (s.pc j)) ⊎ ((i : ℕ) × IsWinner s i)

  -- A step of the winner, of another, and of the first to write.
  pub IsWinner-step :
      (s : Freezers E) (i : ℕ) → IsWinner s i → IsWinner (act E inputs s (Action.freeze_step i)) i
  unfolding act
  IsWinner-step s i h =
      let (same, written) = winner_advances E occ (inputs i) (s.pc i) s.world h.written in
      record {
        written = rw (update_here s.pc i (advance E (inputs i) (s.pc i) s.world).0) written;
        stale = rw same h.stale;
        others = λ j ne.
            rw (update_other s.pc i j (advance E (inputs i) (s.pc i) s.world).0 ne) (h.others j ne);
      }

  pub other_step :
      (s : Freezers E) (i k : ℕ)
      → k ≢ i
      → IsWinner s i
      → IsWinner (act E inputs s (Action.freeze_step k)) i
  unfolding act
  other_step s i k ne h =
      let (behind, sm, ss) =
        loser_advances E occ (inputs k) (s.pc k) s.world (h.others k ne)
          (IsStale-for i k s.world h.stale) in
      let p = (advance E (inputs k) (s.pc k) s.world).0 in
      let w = (advance E (inputs k) (s.pc k) s.world).1 in
      let same_memory : occ.view w (memory_key (inputs i))
          ≡ occ.view s.world (memory_key (inputs i)) =
        rw (same_memory_key i k) sm in
      let same_state : occ.view w (state_key (inputs i)) ≡ occ.view s.world (state_key (inputs i)) =
        rw (same_state_key i k) ss in
      record {
        written =
            rw (update_other s.pc k i p (λ same. ne (sym same)))
              (written_kept E occ (inputs i) (s.pc i) s.world w same_memory same_state h.written);
        stale = rw same_memory h.stale;
        others = λ j nj. update_case IsBehind s.pc k p j behind (h.others j nj);
      }

  first_step :
      (s : Freezers E) (k : ℕ)
      → ((j : ℕ) → IsBehind (s.pc j))
      → IsRaced (act E inputs s (Action.freeze_step k))
  unfolding act
  first_step s k behind =
      let p = (advance E (inputs k) (s.pc k) s.world).0 in
      elim (IsBehind-advances E occ (inputs k) (s.pc k) s.world (behind k)) [
        | inl still ↦ inl (λ j. update_case IsBehind s.pc k p j still (behind j))
        | inr (written, stale) ↦ inr (
          k,
          record {
            written = rw (update_here s.pc k p) written;
            stale = stale;
            others = λ j ne. rw (update_other s.pc k j p ne) (behind j);
          },
        )
      ]

  pub IsWinner-look :
      (s : Freezers E) (w : E.World) (i : ℕ)
      → ((j : Bytes) → occ.view w j ≡ occ.view s.world j)
      → IsWinner s i
      → IsWinner (record s { world = w }) i
  IsWinner-look s w i same h = record {
    written =
        written_kept E occ (inputs i) (s.pc i) s.world w (same (memory_key (inputs i)))
          (same (state_key (inputs i))) h.written;
    stale = rw (same (memory_key (inputs i))) h.stale;
    others = h.others;
  }

  look_step :
      (s : Freezers E) (w : E.World)
      → ((j : Bytes) → occ.view w j ≡ occ.view s.world j)
      → IsRaced s
      → IsRaced (record s { world = w })
  look_step s w same (inl behind) = inl behind
  look_step s w same (inr (i, h)) = inr (i, IsWinner-look s w i same h)

  freeze_step-IsRaced :
      (s : Freezers E) (k : ℕ) → IsRaced s → IsRaced (act E inputs s (Action.freeze_step k))
  freeze_step-IsRaced s k (inl behind) = first_step s k behind
  freeze_step-IsRaced s k (inr (i, h)) = elim (ℕ_discrete k i) [
    | yes same ↦ inr (i, rw same (IsWinner-step s i h))
    | no other ↦ inr (i, other_step s i k other h)
  ]

  act-IsRaced : (s : Freezers E) (x : Action) → IsRaced s → IsRaced (act E inputs s x)
  unfolding act
  act-IsRaced s (Action.freeze_step k) h = freeze_step-IsRaced s k h
  act-IsRaced s (Action.read_key k) h = look_step s _ (λ j. occ.view-get k s.world j) h
  act-IsRaced s Action.read_clock h = look_step s _ (λ j. occ.view-now s.world j) h

  run-IsRaced :
      (schedule : List Action) (s : Freezers E) → IsRaced s → IsRaced (run E inputs s schedule)
  unfolding run
  run-IsRaced [] s h = h
  run-IsRaced (x ∷ schedule) s h = run-IsRaced schedule (act E inputs s x) (act-IsRaced s x h)

  -- A freeze that has returned a sequence number is the winner.
  finished_wins :
      (s : Freezers E) (i : ℕ) (seq : ℕ)
      → IsRaced s
      → s.pc i ≡ FreezePc.finished (ok seq)
      → IsWinner s i
  finished_wins s i seq (inl behind) done = absurd (rw done at (behind i))
  finished_wins s i seq (inr (k, h)) done = elim (ℕ_discrete i k) [
    | yes same ↦ rw same h
    | no other ↦ absurd (rw done at (h.others i other))
  ]

  raced : (schedule : List Action) (w : E.World) → IsRaced (run E inputs (init E w) schedule)
  raced schedule w = run-IsRaced schedule (init E w) (inl (λ j. tt))

  -- Of freezes of one agent that all read its working memory at one ETag at most one succeeds, however
  -- the calls of the freezes and of hydrations mix. And when one has, both records in the store are
  -- the ones it wrote, the state pointing at the version of the working memory.
  pub one_freeze_wins :
      (schedule : List Action) (w : E.World) (i seq : ℕ)
      → (run E inputs (init E w) schedule).pc i ≡ FreezePc.finished (ok seq)
      → ((j seq' : ℕ)
          → (run E inputs (init E w) schedule).pc j ≡ FreezePc.finished (ok seq')
          → j ≡ i)
        × HasBoth E occ (inputs i) (run E inputs (init E w) schedule).world
  one_freeze_wins schedule w i seq done =
      let s = run E inputs (init E w) schedule in
      let h = finished_wins s i seq (raced schedule w) done in
      (
        (λ j seq' done'. elim (ℕ_discrete j i) [
          | yes same ↦ same
          | no other ↦ absurd (rw done' at (h.others j other))
        ]),
        rw done at h.written,
      )

module _ (E : Platform) (occ : IsOcc E) (avail : IsAvailable E occ) (lossless : IsLossless E)
    {t a : Bytes} {e : ETag} (inputs : ℕ → FreezeInput) (race : IsRace t a e inputs) where
  -- Of freezes of one agent that all read its working memory at one ETag, when one has succeeded, a
  -- hydration returns what it froze, as if it had run alone: with a store that answers and prost
  -- lossless, whatever the others did and recovery would do, and however the calls mixed.
  pub hydrate_after_race :
      (recover : Bytes → Bytes → Exec E.World WorkingMemoryRecord) (manager : AgentHydrationManager)
      (schedule : List Action) (w : E.World) (i seq : ℕ)
      → (run E inputs (init E w) schedule).pc i ≡ FreezePc.finished (ok seq)
      → (memory_stamp : Timestamp) × (state_stamp : Timestamp) × ((hydrate_with E recover manager
            (inputs i).tenant_id
            (inputs i).agent_id
            (run E inputs (init E w) schedule).world).0
          ≡ ok (thawed (inputs i) memory_stamp state_stamp))
  unfolding frozen_state
  hydrate_after_race recover manager schedule w i seq done =
      let world = (run E inputs (init E w) schedule).world in
      let b = (one_freeze_wins E occ inputs race schedule w i seq done).1 in
      let m = frozen_memory (inputs i).working_memory b.has_memory.memory_stamp in
      let s = frozen_state (inputs i).state m.version b.has_state.state_stamp in
      let same_memory : b.m ≡ m = b.has_memory.is_memory in
      let same_state : b.s ≡ s = rw same_memory at b.has_state.is_state in
      (
        b.has_memory.memory_stamp,
        b.has_state.state_stamp,
        hydrate_consistent E occ avail recover manager (inputs i).tenant_id (inputs i).agent_id
            world s m (record { value = E.encode_state s; etag = b.has_state.state_tag })
            (record { value = E.encode_memory m; etag = b.has_memory.memory_tag })
            (rw same_state at b.has_state.state_stored) (lossless.state s) refl
            (rw same_memory at b.has_memory.memory_stored) (lossless.memory m) refl,
      )
