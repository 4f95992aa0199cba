-- ===== src/State/Store.antt =====
-- crates/af-swarm-state/src/store.rs: the Dapr state store client. `DaprStateStore` is the code as it
-- stands, whose calls of the Dapr SDK are `todo!()`; `Platform` is what the rest of the crate takes
-- of the world: the store that those calls are to reach, the clock, prost and SHA-256.
pub mod Laws
pub mod Ttl
use swarm_runtime.Prelude.{ℕ, Bytes, List, Option}
use swarm_runtime.State.Error.{StateResult, panic}
use swarm_runtime.State.Exec.{Exec}
use swarm_runtime.State.Proto.{AgentStateRecord, WorkingMemoryRecord, CheckpointRecord}

-- `struct ETag(pub String)`.
abbrev pub ETag : Type 0
ETag = Bytes

pub record StateRecord (Wire : Type 0) : Type 0 where
  pub value : Wire
  pub etag : ETag

pub data TtlPolicy : Type 0 where
  no_ttl : TtlPolicy
  seconds : ℕ → TtlPolicy

pub record DaprStateStore : Type 0 where
  pub store_name : Bytes

unfoldable pub new : Bytes → DaprStateStore
new store_name = record { store_name = store_name }

-- The client's methods as committed: each panics at its `todo!()`, before it reaches the store.
module _ {Wire : Type 0} where
  unfoldable pub get : DaprStateStore → Bytes → StateResult (Option (StateRecord Wire))
  get store key = panic

  unfoldable pub set : DaprStateStore → Bytes → Wire → Option ETag → TtlPolicy → StateResult ETag
  set store key value etag ttl = panic

  unfoldable pub set_bulk :
      DaprStateStore → List (Bytes × Wire × Option ETag × TtlPolicy) → StateResult (List ETag)
  set_bulk store items = panic

unfoldable pub delete : DaprStateStore → Bytes → Option ETag → StateResult (Unit {0})
delete store key etag = panic

unfoldable pub list_keys_with_prefix : DaprStateStore → Bytes → StateResult (List Bytes)
list_keys_with_prefix store prefix = panic

-- `SystemTime::now().duration_since(UNIX_EPOCH)`, where it is not an error.
pub record Duration : Type 0 where
  pub secs : ℕ
  pub subsec_nanos : ℕ

-- `Wire` is `Bytes` where it holds an encoded message; `decode` fails with a `DecodeError`.
pub record Platform : Type 1 where
  pub Wire : Type 0
  pub World : Type 0
  pub get_state : Bytes → Exec World (Option (StateRecord Wire))
  pub save_state : Bytes → Wire → Option ETag → TtlPolicy → Exec World ETag
  pub now : World → Option Duration × World
  pub encode_state : AgentStateRecord → Wire
  pub decode_state : Wire → Option AgentStateRecord
  pub encode_memory : WorkingMemoryRecord → Wire
  pub decode_memory : Wire → Option WorkingMemoryRecord
  pub encode_checkpoint : CheckpointRecord → Wire
  pub sha256 : List Wire → Bytes
