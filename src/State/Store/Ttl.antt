-- ===== src/State/Store/Ttl.antt =====
-- What `TtlPolicy` of crates/af-swarm-state/src/store.rs documents, as named hypotheses on a `Platform`:
-- a record written with a TTL is gone when it has been left alone for that long.
use swarm_runtime.Prelude.{
  ℕ, ◌-◌, Bytes, Bool, false, Option, none, some, ◌≡◌, ◌≢◌, leb, if◌then◌else◌,
}
use swarm_runtime.State.Error.{ok}
use swarm_runtime.State.Store.{ETag, TtlPolicy, no_ttl, seconds, Platform}
use swarm_runtime.State.Store.Laws.{IsOcc}

-- The seconds that a write gives a record; `none` is for ever.
abbrev pub seconds_given : TtlPolicy → Option ℕ
seconds_given no_ttl = none
seconds_given (seconds n) = some n

abbrev pub is_over : ℕ → Option ℕ → Bool
is_over n none = false
is_over n (some l) = leb l n

abbrev pub lessen : ℕ → Option ℕ → Option ℕ
lessen n none = none
lessen n (some l) = some (l - n)

-- `idle n w` is the world after `n` seconds without a call, and `left w j` the seconds that the record
-- at `j` has left. A call takes no time that counts.
pub record IsTtl (E : Platform) (occ : IsOcc E) : Type 0 where
  pub idle : ℕ → E.World → E.World
  pub left : E.World → Bytes → Option ℕ
  pub view-idle :
      (n : ℕ) (w : E.World) (j : Bytes)
      → occ.view (idle n w) j ≡ (if is_over n (left w j) then none else occ.view w j)
  pub left-idle : (n : ℕ) (w : E.World) (j : Bytes) → left (idle n w) j ≡ lessen n (left w j)
  pub left-now : (w : E.World) (j : Bytes) → left (E.now w).1 j ≡ left w j
  pub left-get : (k : Bytes) (w : E.World) (j : Bytes) → left (E.get_state k w).1 j ≡ left w j
  pub left-save :
      (k : Bytes) (v : E.Wire) (tag : Option ETag) (ttl : TtlPolicy) (w : E.World) (new : ETag)
      → (E.save_state k v tag ttl w).0 ≡ ok new
      → left (E.save_state k v tag ttl w).1 k ≡ seconds_given ttl
  pub left-other :
      (k : Bytes) (v : E.Wire) (tag : Option ETag) (ttl : TtlPolicy) (w : E.World) (j : Bytes)
      → j ≢ k
      → left (E.save_state k v tag ttl w).1 j ≡ left w j
