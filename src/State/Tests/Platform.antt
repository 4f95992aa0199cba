-- ===== src/State/Tests/Platform.antt =====
-- A store in memory with a clock that stands still: a `Platform` that meets every law of
-- crates/af-swarm-state/src/store.rs, to run the code on.
use swarm_runtime.Prelude.{
  ℕ, Bytes, [], ◌∷◌, Bool, true, false, Option, none, some, ◌≡◌, ◌≢◌, refl, sym, ap, arith,
  eq_bytes, eq_bytes→eq, eq_bytes_refl, if◌then◌else◌, Bool-cases, inl, inr,
}
use swarm_runtime.State.Error.{StateError, StateResult, ok, err, panic, etag_conflict}
use swarm_runtime.State.Exec.{Exec}
use swarm_runtime.State.Proto.{AgentStateRecord, WorkingMemoryRecord, CheckpointRecord}
use swarm_runtime.State.Store.{ETag, StateRecord, TtlPolicy, Platform}
use swarm_runtime.State.Race.Crash.{Answers}
use swarm_runtime.State.Store.Ttl.{seconds_given}
use swarm_runtime.State.Store.Laws.{etag_of, Guard, IsOcc, IsAvailable, IsLossless}

-- A message as its own encoding.
pub data Wire : Type 0 where
  state_wire : AgentStateRecord → Wire
  memory_wire : WorkingMemoryRecord → Wire
  checkpoint_wire : CheckpointRecord → Wire

abbrev pub state_in : Wire → Option AgentStateRecord
state_in (state_wire s) = some s
state_in _ = none

abbrev pub memory_in : Wire → Option WorkingMemoryRecord
memory_in (memory_wire m) = some m
memory_in _ = none

-- `lives` has the seconds that a record has left.
pub record World : Type 0 where
  pub cells : Bytes → Option (StateRecord Wire)
  pub lives : Bytes → Option ℕ
  pub clock : ℕ

-- An ETag that differs from the one held.
abbrev next_tag : Option (StateRecord Wire) → ETag
next_tag none = []
next_tag (some r) = b'x' ∷ r.etag

abbrev guard_test : Option ETag → Option (StateRecord Wire) → Bool
guard_test none held = true
guard_test (some tag) none = false
guard_test (some tag) (some r) = eq_bytes r.etag tag

abbrev write : World → Bytes → StateRecord Wire → TtlPolicy → World
write w k r ttl = record w {
  cells = λ j. if eq_bytes j k then some r else w.cells j;
  lives = λ j. if eq_bytes j k then seconds_given ttl else w.lives j;
}

abbrev pub save : Bytes → Wire → Option ETag → TtlPolicy → Exec World ETag
save k v tag ttl w =
    if guard_test tag (w.cells k)
    then (
      ok (next_tag (w.cells k)),
      write w k (record { value = v; etag = next_tag (w.cells k) }) ttl,
    )
    else (err (etag_conflict k), w)

abbrev pub in_memory : Platform
in_memory = record {
  Wire = Wire;
  World = World;
  get_state = λ k w. (ok (w.cells k), w);
  save_state = save;
  now = λ w. (some (record { secs = w.clock; subsec_nanos = 0 }), w);
  encode_state = state_wire;
  decode_state = state_in;
  encode_memory = memory_wire;
  decode_memory = memory_in;
  encode_checkpoint = checkpoint_wire;
  sha256 = λ parts. [];
}

tag_eq : (a b : ETag) → some a ≡ some b → a ≡ b
tag_eq a b h = cc

not-cons_self : (c : ℕ) (s : Bytes) → s ≢ c ∷ s
not-cons_self c [] h = cc
not-cons_self c (d ∷ s) h = not-cons_self c s (ground arith)

Guard-sound :
    (tag : Option ETag) (held : Option (StateRecord Wire))
    → guard_test tag held ≡ true
    → Guard tag held
Guard-sound none held h = tt
Guard-sound (some tag) none h = absurd (cc)
Guard-sound (some tag) (some r) h = ap some (eq_bytes→eq r.etag tag h)

Guard-complete :
    (tag : Option ETag) (held : Option (StateRecord Wire))
    → Guard tag held
    → guard_test tag held ≡ true
Guard-complete none held h = refl
Guard-complete (some tag) none h = absurd (cc)
Guard-complete (some tag) (some r) h = rw (tag_eq r.etag tag h) (eq_bytes_refl tag)

next_tag-fresh : (held : Option (StateRecord Wire)) → etag_of held ≢ some (next_tag held)
next_tag-fresh none h = cc
next_tag-fresh (some r) h = not-cons_self b'x' r.etag (tag_eq _ _ h)

ok_eq : (a b : ETag) → ◌≡◌ {A = StateResult ETag} (ok a) (ok b) → a ≡ b
ok_eq a b h = cc

ok-ne-err : (a : ETag) (e : StateError) → ◌≢◌ {A = StateResult ETag} (ok a) (err e)
ok-ne-err a e h = cc

pub save_ok_law :
    (k : Bytes) (v : Wire) (tag : Option ETag) (ttl : TtlPolicy) (w : World) (new : ETag)
    → (save k v tag ttl w).0 ≡ ok new
    → Guard tag (w.cells k)
      × ((save k v tag ttl w).1.cells k ≡ some (record { value = v; etag = new }))
      × (etag_of (w.cells k) ≢ some new)
save_ok_law k v tag ttl w new h = elim (Bool-cases (guard_test tag (w.cells k))) [
  | inl fits ↦
      let is_new : next_tag (w.cells k) ≡ new = ok_eq _ _ (rw fits at h) in
      (
        Guard-sound tag (w.cells k) fits,
        rw (fits, eq_bytes_refl k, is_new),
        rw (← is_new) (next_tag-fresh (w.cells k)),
      )
  | inr stale ↦ absurd (ok-ne-err _ _ (sym (rw stale at h)))
]

pub save_other_law :
    (k : Bytes) (v : Wire) (tag : Option ETag) (ttl : TtlPolicy) (w : World) (j : Bytes)
    → j ≢ k
    → (save k v tag ttl w).1.cells j ≡ w.cells j
save_other_law k v tag ttl w j ne = elim (Bool-cases (eq_bytes j k)) [
  | inl same ↦ absurd (ne (eq_bytes→eq j k same))
  | inr other ↦ ground arith
]

pub save_err_law :
    (k : Bytes) (v : Wire) (tag : Option ETag) (ttl : TtlPolicy) (w : World) (e : StateError)
    → (save k v tag ttl w).0 ≡ err e
    → (save k v tag ttl w).1.cells k ≡ w.cells k
save_err_law k v tag ttl w e h = ground arith

pub save_conflict_law :
    (k : Bytes) (v : Wire) (tag : Option ETag) (ttl : TtlPolicy) (w : World)
    → ¬ Guard tag (w.cells k)
    → (save k v tag ttl w).0 ≡ err (etag_conflict k)
save_conflict_law k v tag ttl w stale = elim (Bool-cases (guard_test tag (w.cells k))) [
  | inl fits ↦ absurd (stale (Guard-sound tag (w.cells k) fits))
  | inr unfit ↦ rw unfit
]

pub read_law :
    (k : Bytes) (w : World) (o : Option (StateRecord Wire))
    → ◌≡◌ {A = StateResult (Option (StateRecord Wire))} (ok (w.cells k)) (ok o)
    → o ≡ w.cells k
read_law k w o h = cc

abbrev pub in_memory_occ : IsOcc in_memory
in_memory_occ = record {
  view = λ w. w.cells;
  view-now = λ w j. refl;
  view-get = λ k w j. refl;
  get_ok = read_law;
  save_ok = save_ok_law;
  save_other = save_other_law;
  save_err = save_err_law;
  save_conflict = save_conflict_law;
}

save_total_law :
    (k : Bytes) (v : Wire) (tag : Option ETag) (ttl : TtlPolicy) (w : World)
    → Guard tag (w.cells k)
    → (new : ETag) × ((save k v tag ttl w).0 ≡ ok new)
save_total_law k v tag ttl w fits = (next_tag (w.cells k), rw (Guard-complete tag (w.cells k) fits))

pub in_memory-IsAvailable : IsAvailable in_memory in_memory_occ
in_memory-IsAvailable = record { get_total = λ k w. refl; save_total = save_total_law }

pub in_memory-IsLossless : IsLossless in_memory
in_memory-IsLossless = record { state = λ s. refl; memory = λ m. refl }

ok-ne-panic : (a : ETag) → ◌≢◌ {A = StateResult ETag} (ok a) panic
ok-ne-panic a h = cc

err-ne-panic : (e : StateError) → ◌≢◌ {A = StateResult ETag} (err e) panic
err-ne-panic e h = cc

pub save_lives_law :
    (k : Bytes) (v : Wire) (tag : Option ETag) (ttl : TtlPolicy) (w : World) (new : ETag)
    → (save k v tag ttl w).0 ≡ ok new
    → (save k v tag ttl w).1.lives k ≡ seconds_given ttl
save_lives_law k v tag ttl w new h = elim (Bool-cases (guard_test tag (w.cells k))) [
  | inl fits ↦ rw (fits, eq_bytes_refl k)
  | inr stale ↦ absurd (ok-ne-err _ _ (sym (rw stale at h)))
]

pub save_lives_other_law :
    (k : Bytes) (v : Wire) (tag : Option ETag) (ttl : TtlPolicy) (w : World) (j : Bytes)
    → j ≢ k
    → (save k v tag ttl w).1.lives j ≡ w.lives j
save_lives_other_law k v tag ttl w j ne = elim (Bool-cases (eq_bytes j k)) [
  | inl same ↦ absurd (ne (eq_bytes→eq j k same))
  | inr other ↦ ground arith
]

pub in_memory-Answers : Answers in_memory
in_memory-Answers k v tag ttl w h = elim (Bool-cases (guard_test tag (w.cells k))) [
  | inl fits ↦ absurd (ok-ne-panic _ (rw fits at h))
  | inr stale ↦ absurd (err-ne-panic _ (rw stale at h))
]
