-- ===== src/State/Store/Laws.antt =====
-- What crates/af-swarm-state/src/store.rs documents of the store behind `get` and `set`, as named
-- hypotheses on a `Platform`: optimistic concurrency by ETags, and a store that answers.
use swarm_runtime.Prelude.{Bytes, Option, none, some, ◌≡◌, ◌≢◌, ap}
use swarm_runtime.State.Error.{StateError, ok, err, etag_conflict}
use swarm_runtime.State.Proto.{AgentStateRecord, WorkingMemoryRecord}
use swarm_runtime.State.Store.{ETag, StateRecord, TtlPolicy, Platform}

module _ {Wire : Type 0} where
  abbrev pub etag_of : Option (StateRecord Wire) → Option ETag
  etag_of none = none
  etag_of (some r) = some r.etag

  -- The caller gave no ETag, or the one that the store holds.
  abbrev pub Guard : Option ETag → Option (StateRecord Wire) → Type 0
  Guard none held = Unit
  Guard (some tag) held = etag_of held ≡ some tag

-- `view w k` is what the store holds at `k`. A call may fail; a write that fails leaves its key alone.
pub record IsOcc (E : Platform) : Type 0 where
  pub view : E.World → Bytes → Option (StateRecord E.Wire)
  pub view-now : (w : E.World) (j : Bytes) → view (E.now w).1 j ≡ view w j
  pub view-get : (k : Bytes) (w : E.World) (j : Bytes) → view (E.get_state k w).1 j ≡ view w j
  pub get_ok :
      (k : Bytes) (w : E.World) (o : Option (StateRecord E.Wire))
      → (E.get_state k w).0 ≡ ok o
      → o ≡ view w k
  pub save_ok :
      (k : Bytes) (v : E.Wire) (tag : Option ETag) (ttl : TtlPolicy) (w : E.World) (new : ETag)
      → (E.save_state k v tag ttl w).0 ≡ ok new
      → Guard tag (view w k)
        × (view (E.save_state k v tag ttl w).1 k ≡ some (record { value = v; etag = new }))
        × (etag_of (view w k) ≢ some new)
  pub save_other :
      (k : Bytes) (v : E.Wire) (tag : Option ETag) (ttl : TtlPolicy) (w : E.World) (j : Bytes)
      → j ≢ k
      → view (E.save_state k v tag ttl w).1 j ≡ view w j
  pub save_err :
      (k : Bytes) (v : E.Wire) (tag : Option ETag) (ttl : TtlPolicy) (w : E.World) (e : StateError)
      → (E.save_state k v tag ttl w).0 ≡ err e
      → view (E.save_state k v tag ttl w).1 k ≡ view w k
  pub save_conflict :
      (k : Bytes) (v : E.Wire) (tag : Option ETag) (ttl : TtlPolicy) (w : E.World)
      → ¬ Guard tag (view w k)
      → (E.save_state k v tag ttl w).0 ≡ err (etag_conflict k)

-- A write that returned, with its result and the world after it in hand.
pub record Saved (E : Platform) (occ : IsOcc E) (k : Bytes) (v : E.Wire) (tag : Option ETag)
    (new : ETag) (w w' : E.World) : Type 0 where
  pub guarded : Guard tag (occ.view w k)
  pub stored : occ.view w' k ≡ some (record { value = v; etag = new })
  pub fresh : etag_of (occ.view w k) ≢ some new
  pub others : (j : Bytes) → j ≢ k → occ.view w' j ≡ occ.view w j

pub save-Saved :
    (E : Platform) (occ : IsOcc E) (k : Bytes) (v : E.Wire) (tag : Option ETag) (ttl : TtlPolicy)
    (w : E.World) (new : ETag) (w' : E.World)
    → E.save_state k v tag ttl w ≡ (ok new, w')
    → Saved E occ k v tag new w w'
save-Saved E occ k v tag ttl w new w' h =
    let (guarded, stored, fresh) = occ.save_ok k v tag ttl w new (ap (λ p. p.0) h) in
    let same = ap (λ p. p.1) h in
    record {
      guarded = guarded;
      stored = rw (← same) stored;
      fresh = fresh;
      others = λ j ne. rw (← same) (occ.save_other k v tag ttl w j ne);
    }

-- No outage: reads answer, and a write with the right ETag succeeds.
pub record IsAvailable (E : Platform) (occ : IsOcc E) : Type 0 where
  pub get_total : (k : Bytes) (w : E.World) → (E.get_state k w).0 ≡ ok (occ.view w k)
  pub save_total :
      (k : Bytes) (v : E.Wire) (tag : Option ETag) (ttl : TtlPolicy) (w : E.World)
      → Guard tag (occ.view w k)
      → (new : ETag) × ((E.save_state k v tag ttl w).0 ≡ ok new)

-- prost decodes what it encoded.
pub record IsLossless (E : Platform) : Type 0 where
  pub state : (s : AgentStateRecord) → E.decode_state (E.encode_state s) ≡ some s
  pub memory : (m : WorkingMemoryRecord) → E.decode_memory (E.encode_memory m) ≡ some m
