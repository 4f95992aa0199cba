-- ===== src/State/Race/Mixed.antt =====
-- A freeze (crates/af-swarm-state/src/freeze.rs) that stalls between its two writes while another, that
-- starts from a recovered working memory, makes its first: the check of crates/af-swarm-state/src/hydrate.rs
-- compares two numbers, and both freezes write the same one.
use swarm_runtime.Prelude.{ℕ, Bytes, false, Option, none, some, ◌≡◌, refl, ◌∙◌, ap, arith, [], ◌∷◌}
use swarm_runtime.State.Error.{ok}
use swarm_runtime.State.Exec.{Exec}
use swarm_runtime.State.Keys.{checkpoint_key}
use swarm_runtime.State.Proto.{Timestamp, WorkingMemoryRecord}
use swarm_runtime.State.Store.{ETag, StateRecord, no_ttl, seconds, Platform}
use swarm_runtime.State.Store.Laws.{Guard, IsOcc, IsAvailable, IsLossless}
use swarm_runtime.State.Freeze.{FreezeInput, frozen_memory, frozen_state, checkpoint_of, or_default}
use swarm_runtime.State.Freeze.Writes.{state_key, memory_key, stamp_at}
use swarm_runtime.State.Hydrate.{AgentHydrationManager, hydrate_with}
use swarm_runtime.State.Lifecycle.{hydrate_consistent}
use swarm_runtime.State.Race.{FreezePc, advance}
use swarm_runtime.State.Race.Alone.{advances}
use swarm_runtime.State.Race.Effects.{
  save_memory_keeps, save_frozen_state_keeps, save_checkpoint_keeps,
}

module _ (E : Platform) (occ : IsOcc E) (avail : IsAvailable E occ) where
  -- The working memory of a freeze is written, and the state is as before.
  record FirstHalf (input : FreezeInput) (w : E.World) (p : FreezePc × E.World) : Type 0 where
    stamp : Timestamp
    at : p.0 ≡ FreezePc.memory_saved (frozen_memory input.working_memory stamp)
    tag : ETag
    memory_stored :
        occ.view p.1 (memory_key input)
        ≡ some (record {
          value = E.encode_memory (frozen_memory input.working_memory stamp);
          etag = tag;
        })
    state_kept : occ.view p.1 (state_key input) ≡ occ.view w (state_key input)

  first_half :
      (input : FreezeInput) (w : E.World)
      → Guard (some input.memory_etag) (occ.view w (memory_key input))
      → FirstHalf input w (advances E 2 input (FreezePc.starting, w))
  unfolding advances advance
  first_half input w guarded =
      let mk = memory_key input in
      let w1 = (E.now w).1 in
      let v = E.encode_memory (frozen_memory input.working_memory (stamp_at E w)) in
      let held : Guard (some input.memory_etag) (occ.view w1 mk) = rw (occ.view-now w mk) guarded in
      let (new, done) = avail.save_total mk v (some input.memory_etag) (seconds 86400) w1 held in
      let (_, stored, _) = occ.save_ok mk v (some input.memory_etag) (seconds 86400) w1 new done in
      let other = save_memory_keeps E occ input (stamp_at E w) w1 in
      record {
        stamp = stamp_at E w;
        at = rw done refl;
        tag = new;
        memory_stored = stored;
        state_kept = other ∙ occ.view-now w (state_key input);
      }

  -- The freeze has returned, with its state written, and left the working memory that is stored alone.
  record SecondHalf (input : FreezeInput) (m : WorkingMemoryRecord) (w : E.World)
      (p : FreezePc × E.World) : Type 0 where
    seq : ℕ
    at : p.0 ≡ FreezePc.finished (ok seq)
    stamp : Timestamp
    tag : ETag
    state_stored :
        occ.view p.1 (state_key input)
        ≡ some (record {
          value = E.encode_state (frozen_state input.state m.version stamp);
          etag = tag;
        })
    memory_kept : occ.view p.1 (memory_key input) ≡ occ.view w (memory_key input)

  second_half :
      (input : FreezeInput) (m : WorkingMemoryRecord) (w : E.World)
      → Guard (some input.state_etag) (occ.view w (state_key input))
      → SecondHalf input m w (advances E 5 input (FreezePc.memory_saved m, w))
  unfolding advances advance
  second_half input m w guarded =
      let sk = state_key input in
      let mk = memory_key input in
      let w1 = (E.now w).1 in
      let s = frozen_state input.state m.version (stamp_at E w) in
      let v = E.encode_state s in
      let held : Guard (some input.state_etag) (occ.view w1 sk) = rw (occ.view-now w sk) guarded in
      let (new, done) = avail.save_total sk v (some input.state_etag) no_ttl w1 held in
      let (_, stored, _) = occ.save_ok sk v (some input.state_etag) no_ttl w1 new done in
      let w2 = (E.save_state sk v (some input.state_etag) no_ttl w1).1 in
      let other = save_frozen_state_keeps E occ input m (stamp_at E w) w1 in
      let w3 = (E.now w2).1 in
      let w4 = (E.now w3).1 in
      let seq = (or_default (E.now w2).0).secs in
      let ck = checkpoint_key input.tenant_id input.agent_id seq in
      let digest = E.sha256 (v ∷ E.encode_memory m ∷ []) in
      let c = E.encode_checkpoint (
        checkpoint_of E (record input { state = s; working_memory = m }) seq digest
          (stamp_at E w3)) in
      let (_, done') = avail.save_total ck c none no_ttl w4 tt in
      let (last_mk, last_sk) = save_checkpoint_keeps E occ input m s seq (stamp_at E w3) w4 in
      record {
        seq = seq;
        at = rw (done, done') refl;
        stamp = stamp_at E w;
        tag = new;
        state_stored = rw done (last_sk ∙ occ.view-now w3 sk ∙ occ.view-now w2 sk ∙ stored);
        memory_kept =
            rw done (last_mk ∙ occ.view-now w3 mk ∙ occ.view-now w2 mk ∙ other ∙ occ.view-now w mk);
      }

same_frozen_version :
    (a b : FreezeInput) (stamp stamp' : Timestamp)
    → b.working_memory.version ≡ a.working_memory.version
    → (frozen_memory a.working_memory stamp).version
      ≡ (frozen_memory b.working_memory stamp').version
unfolding frozen_memory
same_frozen_version a b stamp stamp' h = omega arith

module _ (E : Platform) (occ : IsOcc E) (avail : IsAvailable E occ) (lossless : IsLossless E) where
  -- The freeze `a` writes its working memory and stalls; `b`, of the same agent, has a recovered working
  -- memory of the version that `a` had, the ETag of the one that `a` wrote, and writes its own; `a`
  -- goes on. Over a store that answers `a` succeeds, and a hydration returns the state of `a` with the
  -- working memory of `b`, as if they belonged together.
  pub mixed_pair_undetected :
      (recover : Bytes → Bytes → Exec E.World WorkingMemoryRecord) (manager : AgentHydrationManager)
      (a b : FreezeInput) (w : E.World)
      → b.tenant_id ≡ a.tenant_id
      → b.agent_id ≡ a.agent_id
      → b.working_memory.version ≡ a.working_memory.version
      → Guard (some a.memory_etag) (occ.view w (memory_key a))
      → Guard (some a.state_etag) (occ.view w (state_key a))
      → let stalled = advances E 2 a (FreezePc.starting, w) in
        let other = advances E 2 b (FreezePc.starting, stalled.1) in
        let end = advances E 5 a (stalled.0, other.1) in
        Guard (some b.memory_etag) (occ.view stalled.1 (memory_key b))
        → ((seq : ℕ) × (end.0 ≡ FreezePc.finished (ok seq)))
          × ((m : WorkingMemoryRecord) × (memory_stamp : Timestamp) × (state_stamp : Timestamp) × (m
                ≡ frozen_memory b.working_memory memory_stamp)
              × ((hydrate_with E recover manager a.tenant_id a.agent_id end.1).0
                  ≡ ok (record {
                    state = frozen_state a.state m.version state_stamp;
                    working_memory = m;
                    recovered_from_checkpoint = false;
                  })))
  unfolding frozen_state
  mixed_pair_undetected recover manager a b w et ea ev guarded_memory guarded_state guarded_other =
      let first = first_half E occ avail a w guarded_memory in
      let stalled = advances E 2 a (FreezePc.starting, w) in
      let theirs = first_half E occ avail b stalled.1 guarded_other in
      let other = advances E 2 b (FreezePc.starting, stalled.1) in
      let same_state_key : state_key b ≡ state_key a = rw (et, ea) refl in
      let same_memory_key : memory_key b ≡ memory_key a = rw (et, ea) refl in
      let mine = frozen_memory a.working_memory first.stamp in
      let m = frozen_memory b.working_memory theirs.stamp in
      let kept : occ.view other.1 (state_key a) ≡ occ.view w (state_key a) =
        rw same_state_key at theirs.state_kept ∙ first.state_kept in
      let held : Guard (some a.state_etag) (occ.view other.1 (state_key a)) =
        rw kept guarded_state in
      let second = second_half E occ avail a mine other.1 held in
      let version : mine.version ≡ m.version =
        same_frozen_version a b first.stamp theirs.stamp ev in
      let s = frozen_state a.state m.version second.stamp in
      let stored_as : Timestamp → ETag → ℕ → Option (StateRecord E.Wire) = λ stamp tag v.
        some (record { value = E.encode_state (frozen_state a.state v stamp); etag = tag }) in
      rw first.at (
        (second.seq, second.at),
        (
          m,
          theirs.stamp,
          second.stamp,
          refl,
          hydrate_consistent E occ avail recover manager a.tenant_id a.agent_id
              (advances E 5 a (FreezePc.memory_saved mine, other.1)).1 s m
              (record { value = E.encode_state s; etag = second.tag })
              (record { value = E.encode_memory m; etag = theirs.tag })
              (second.state_stored ∙ ap (stored_as second.stamp second.tag) version)
              (lossless.state s) refl
              (second.memory_kept ∙ rw same_memory_key at theirs.memory_stored) (lossless.memory m)
              refl,
        ),
      )
