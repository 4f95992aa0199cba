-- ===== src/State/Race.antt =====
-- crates/af-swarm-state/src/freeze.rs with several freezes of one agent at once: each call of the
-- store or the clock is a step of its own, and the steps of the freezes, and the reads of any
-- hydration, mix in any order.
pub mod Alone
pub mod Effects
pub mod Winner
pub mod Loser
pub mod Outcome
pub mod Available
pub mod Success
pub mod Crash
pub mod Stopped
pub mod Mixed
pub mod Overlap
use swarm_runtime.Prelude.{ℕ, Bytes, List, [], ◌∷◌, Option, none, some}
use swarm_runtime.Prelude.Families.{update}
use swarm_runtime.State.Error.{StateResult, ok, err, panic}
use swarm_runtime.State.Keys.{checkpoint_key}
use swarm_runtime.State.Proto.{Timestamp, AgentStateRecord, WorkingMemoryRecord}
use swarm_runtime.State.Store.{ETag, no_ttl, seconds, Platform}
use swarm_runtime.State.Freeze.{
  FreezeInput, frozen_memory, frozen_state, checkpoint_of, or_default, timestamp_of,
}
use swarm_runtime.State.Freeze.Writes.{state_key, memory_key}

-- Where a freeze is, with what it has computed so far.
pub data FreezePc : Type 0 where
  starting : FreezePc
  memory_stamped : Timestamp → FreezePc
  memory_saved : WorkingMemoryRecord → FreezePc
  state_stamped : WorkingMemoryRecord → Timestamp → FreezePc
  state_saved : WorkingMemoryRecord → AgentStateRecord → FreezePc
  sequenced : WorkingMemoryRecord → AgentStateRecord → ℕ → FreezePc
  checkpoint_stamped : WorkingMemoryRecord → AgentStateRecord → ℕ → Timestamp → FreezePc
  finished : StateResult ℕ → FreezePc

-- `?` on a write that the freeze waits for, and the result after that of the checkpoint.
abbrev pub after_save : FreezePc → StateResult ETag → FreezePc
after_save next (ok tag) = next
after_save next (err e) = FreezePc.finished (err e)
after_save next panic = FreezePc.finished panic

abbrev pub after_checkpoint : ℕ → StateResult ETag → StateResult ℕ
after_checkpoint seq (ok tag) = ok seq
after_checkpoint seq (err e) = ok 0
after_checkpoint seq panic = panic

-- The next call of the freeze `i`; or a call of a hydration, which reads a key or the clock.
pub data Action : Type 0 where
  freeze_step : ℕ → Action
  read_key : Bytes → Action
  read_clock : Action

-- The three writes.
abbrev pub save_memory :
    (E : Platform) → FreezeInput → Timestamp → E.World → StateResult ETag × E.World
save_memory E input stamp w =
    let m = frozen_memory input.working_memory stamp in
    E.save_state (memory_key input) (E.encode_memory m) (some input.memory_etag) (seconds 86400) w

abbrev pub save_frozen_state :
    (E : Platform)
    → FreezeInput
    → WorkingMemoryRecord
    → Timestamp
    → E.World
    → StateResult ETag × E.World
save_frozen_state E input m stamp w =
    let s = frozen_state input.state m.version stamp in
    E.save_state (state_key input) (E.encode_state s) (some input.state_etag) no_ttl w

abbrev pub save_checkpoint :
    (E : Platform)
    → FreezeInput
    → WorkingMemoryRecord
    → AgentStateRecord
    → ℕ
    → Timestamp
    → E.World
    → StateResult ETag × E.World
save_checkpoint E input m s seq stamp w =
    let frozen = record input { state = s; working_memory = m } in
    let digest = E.sha256 (E.encode_state s ∷ E.encode_memory m ∷ []) in
    E.save_state (checkpoint_key input.tenant_id input.agent_id seq)
      (E.encode_checkpoint (checkpoint_of E frozen seq digest stamp)) none no_ttl w

module _ (E : Platform) where
  -- The next call of a freeze.
  unfoldable pub advance : FreezeInput → FreezePc → E.World → FreezePc × E.World
  advance input FreezePc.starting w =
      let (t, w') = E.now w in (FreezePc.memory_stamped (timestamp_of (or_default t)), w')
  advance input (FreezePc.memory_stamped stamp) w =
      let (r, w') = save_memory E input stamp w in
      (after_save (FreezePc.memory_saved (frozen_memory input.working_memory stamp)) r, w')
  advance input (FreezePc.memory_saved m) w =
      let (t, w') = E.now w in (FreezePc.state_stamped m (timestamp_of (or_default t)), w')
  advance input (FreezePc.state_stamped m stamp) w =
      let (r, w') = save_frozen_state E input m stamp w in
      (after_save (FreezePc.state_saved m (frozen_state input.state m.version stamp)) r, w')
  advance input (FreezePc.state_saved m s) w =
      let (t, w') = E.now w in (FreezePc.sequenced m s (or_default t).secs, w')
  advance input (FreezePc.sequenced m s seq) w =
      let (t, w') = E.now w in
      (FreezePc.checkpoint_stamped m s seq (timestamp_of (or_default t)), w')
  advance input (FreezePc.checkpoint_stamped m s seq stamp) w =
      let (r, w') = save_checkpoint E input m s seq stamp w in
      (FreezePc.finished (after_checkpoint seq r), w')
  advance input (FreezePc.finished r) w = (FreezePc.finished r, w)

  -- The freezes with their inputs, each at its place, and the world they share.
  pub record Freezers : Type 0 where
    pub world : E.World
    pub pc : ℕ → FreezePc

  abbrev pub init : E.World → Freezers
  init w = record { world = w; pc = λ _. FreezePc.starting }

  unfoldable pub act : (ℕ → FreezeInput) → Freezers → Action → Freezers
  unfolding advance
  act inputs s (Action.freeze_step i) =
      let (p, w) = advance (inputs i) (s.pc i) s.world in record { world = w; pc = update s.pc i p }
  act inputs s (Action.read_key k) = record s { world = (E.get_state k s.world).1 }
  act inputs s Action.read_clock = record s { world = (E.now s.world).1 }

  unfoldable pub run : (ℕ → FreezeInput) → Freezers → List Action → Freezers
  unfolding act
  run inputs s [] = s
  run inputs s (a ∷ schedule) = run inputs (act inputs s a) schedule
