-- ===== src/State/Race/Overlap/Reading.antt =====
-- The phases of a race of freezes (crates/af-swarm-state/src/freeze.rs) as a whole, through the steps of
-- the freezes and the reads of others.
use swarm_runtime.Prelude.{ℕ, Bytes, ◌≡◌, ◌≢◌, ◌⊎◌, sym, inl, inr, ◌∙◌}
use native.Mathlib.Decide.{ℕ_discrete}
use swarm_runtime.Prelude.Families.{update_here, update_other, update_case}
use swarm_runtime.State.Keys.{agent_state_key, working_memory_key}
use swarm_runtime.State.Store.{ETag, Platform}
use swarm_runtime.State.Store.Laws.{IsOcc}
use swarm_runtime.State.Freeze.{FreezeInput}
use swarm_runtime.State.Race.{Freezers, Action, advance, act}
use swarm_runtime.State.Race.Winner.{IsRace, IsBehind}
use swarm_runtime.State.Race.Loser.{IsStale, loser_advances}
use swarm_runtime.State.Race.Outcome.{IsStale-for}
use swarm_runtime.State.Race.Crash.{Answers, IsAt, advance-IsAt}
use swarm_runtime.State.Race.Overlap.Phases.{
  IsAhead, IsClosed, SameRecords, IsAt-kept, advance-IsAhead, advance-IsClosed,
  advance-BehindOrAhead,
}

module _ (E : Platform) (occ : IsOcc E) (answers : Answers E) (w0 : E.World) {t a : Bytes}
    {e : ETag} (inputs : ℕ → FreezeInput) (race : IsRace t a e inputs) where
  -- The two records of the agent are the same in two worlds.
  abbrev pub SamePair : E.World → E.World → Type 0
  SamePair w' w =
      (occ.view w' (working_memory_key t a) ≡ occ.view w (working_memory_key t a))
      × (occ.view w' (agent_state_key t a) ≡ occ.view w (agent_state_key t a))

  pub pair_of :
      (i : ℕ) (w' w : E.World) → SameRecords E occ answers w0 (inputs i) w' w → SamePair w' w
  pair_of i w' w same = rw (race.tenant i, race.agent i) at same

  pub records_of :
      (i : ℕ) (w' w : E.World) → SamePair w' w → SameRecords E occ answers w0 (inputs i) w' w
  records_of i w' w same = rw (race.tenant i, race.agent i) same

  -- The freeze `i` is the first that wrote, and is where `IsAt` says.
  pub record IsLed (s : Freezers E) (i : ℕ) : Type 0 where
    pub ahead : IsAhead (s.pc i)
    pub at : IsAt E occ answers w0 (inputs i) (s.pc i) s.world
    pub stale : IsStale E occ (inputs i) s.world
    pub others : (j : ℕ) → j ≢ i → IsBehind (s.pc j)

  abbrev pub Phase : Freezers E → Type 0
  Phase s = (((j : ℕ) → IsBehind (s.pc j)) × SamePair s.world w0) ⊎ ((i : ℕ) × IsLed s i)

  -- No freeze writes a record of the agent any more.
  pub record IsSealed (s : Freezers E) : Type 0 where
    pub leader : ℕ
    pub closed : IsClosed (s.pc leader)
    pub stale : IsStale E occ (inputs leader) s.world
    pub others : (j : ℕ) → j ≢ leader → IsBehind (s.pc j)

  -- A read, by whomever.
  pub look-Phase :
      (s : Freezers E) (w : E.World) → SamePair w s.world → Phase s → Phase (record s { world = w })
  look-Phase s w (sm, ss) (inl (behind, (a, b))) = inl (behind, (sm ∙ a, ss ∙ b))
  look-Phase s w same (inr (i, h)) =
      let own = records_of i w s.world same in
      inr (
        i,
        record {
          ahead = h.ahead;
          at = IsAt-kept E occ answers w0 (inputs i) (s.pc i) s.world w own h.at;
          stale = rw own.0 h.stale;
          others = h.others;
        },
      )

  pub look-IsSealed :
      (s : Freezers E) (w : E.World)
      → SamePair w s.world
      → IsSealed s
      → IsSealed (record s { world = w })
  look-IsSealed s w same h = record {
    leader = h.leader;
    closed = h.closed;
    stale = rw (records_of h.leader w s.world same).0 h.stale;
    others = h.others;
  }

  leader_step :
      (s : Freezers E) (i : ℕ) → IsLed s i → IsLed (act E inputs s (Action.freeze_step i)) i
  unfolding act
  leader_step s i h =
      let p = (advance E (inputs i) (s.pc i) s.world).0 in
      let (ahead, same) = advance-IsAhead E occ answers w0 (inputs i) (s.pc i) s.world h.ahead in
      record {
        ahead = rw (update_here s.pc i p) ahead;
        at =
            rw (update_here s.pc i p)
              (advance-IsAt E occ answers w0 (inputs i) (s.pc i) s.world h.at);
        stale = rw same h.stale;
        others = λ j ne. rw (update_other s.pc i j p ne) (h.others j ne);
      }

  -- A step of a freeze that is behind, when another has written.
  late_step :
      (s : Freezers E) (k i : ℕ)
      → IsBehind (s.pc k)
      → IsStale E occ (inputs i) s.world
      → IsBehind (advance E (inputs k) (s.pc k) s.world).0
        × SamePair (advance E (inputs k) (s.pc k) s.world).1 s.world
  late_step s k i behind stale =
      let (still, sm, ss) =
        loser_advances E occ (inputs k) (s.pc k) s.world behind
          (IsStale-for E occ inputs race i k s.world stale) in
      (still, pair_of k _ s.world (sm, ss))

  follower_step :
      (s : Freezers E) (i k : ℕ)
      → k ≢ i
      → IsLed s i
      → IsLed (act E inputs s (Action.freeze_step k)) i
  unfolding act
  follower_step s i k ne h =
      let p = (advance E (inputs k) (s.pc k) s.world).0 in
      let w = (advance E (inputs k) (s.pc k) s.world).1 in
      let (still, same) = late_step s k i (h.others k ne) h.stale in
      let own = records_of i w s.world same in
      let here = update_other s.pc k i p (λ q. ne (sym q)) in
      record {
        ahead = rw here h.ahead;
        at = rw here (IsAt-kept E occ answers w0 (inputs i) (s.pc i) s.world w own h.at);
        stale = rw own.0 h.stale;
        others = λ j nj. update_case IsBehind s.pc k p j still (h.others j nj);
      }

  pub freeze_step-Phase :
      (s : Freezers E) (k : ℕ) → Phase s → Phase (act E inputs s (Action.freeze_step k))
  unfolding act
  freeze_step-Phase s k (inl (behind, same)) =
      let p = (advance E (inputs k) (s.pc k) s.world).0 in
      elim (advance-BehindOrAhead E occ answers w0 (inputs k) (s.pc k) s.world (behind k)
        (records_of k s.world w0 same)) [
          | inl (still, same') ↦
              inl ((λ j. update_case IsBehind s.pc k p j still (behind j)), pair_of k _ w0 same')
          | inr (ahead, at, stale) ↦ inr (
            k,
            record {
              ahead = rw (update_here s.pc k p) ahead;
              at = rw (update_here s.pc k p) at;
              stale = stale;
              others = λ j ne. rw (update_other s.pc k j p ne) (behind j);
            },
          )
        ]
  freeze_step-Phase s k (inr (i, h)) = elim (ℕ_discrete k i) [
    | yes same ↦ inr (i, rw same (leader_step s i h))
    | no other ↦ inr (i, follower_step s i k other h)
  ]

  pub freeze_step-IsSealed :
      (s : Freezers E) (k : ℕ)
      → IsSealed s
      → IsSealed (act E inputs s (Action.freeze_step k))
        × SamePair (act E inputs s (Action.freeze_step k)).world s.world
  unfolding act
  freeze_step-IsSealed s k h =
      let p = (advance E (inputs k) (s.pc k) s.world).0 in
      let w = (advance E (inputs k) (s.pc k) s.world).1 in
      let i = h.leader in
      elim (ℕ_discrete k i) [
        | yes q ↦
            let (closed, own) =
              advance-IsClosed E occ answers w0 (inputs k) (s.pc k) s.world (rw q h.closed) in
            let stale = IsStale-for E occ inputs race i k s.world h.stale in
            (
              record {
                leader = k;
                closed = rw (update_here s.pc k p) closed;
                stale = rw own.0 stale;
                others = λ j ne. rw (update_other s.pc k j p ne) (h.others j (λ r. ne (r ∙ sym q)));
              },
              pair_of k w s.world own,
            )
        | no other ↦
            let (still, same) = late_step s k i (h.others k other) h.stale in
            (
              record {
                leader = i;
                closed = rw (update_other s.pc k i p (λ r. other (sym r))) h.closed;
                stale = rw (records_of i w s.world same).0 h.stale;
                others = λ j nj. update_case IsBehind s.pc k p j still (h.others j nj);
              },
              same,
            )
      ]
