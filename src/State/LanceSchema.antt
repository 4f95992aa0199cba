-- ===== src/State/LanceSchema.antt =====
-- crates/af-swarm-state/src/lance_schema.rs: the rows of the embedding table, and the query vector of
-- a spreading activation lookup. The `f32` operations are a parameter; an index out of bounds panics.
mod Centroid
pub mod Columns
unfoldable pub use Centroid.*
use swarm_runtime.Prelude.{ℕ, Bytes, Bool, List, Option, codes}
use swarm_runtime.Prelude.Float.{F32}

-- `DateTime<Utc>` is an instant, in nanoseconds.
pub record AgentMemoryEntry : Type 0 where
  pub id : Bytes
  pub tenant_id : Bytes
  pub agent_id : Bytes
  pub turn_id : Option Bytes
  pub source_type : Bytes
  pub content : Bytes
  pub vector : List F32
  pub relevance_score : F32
  pub access_count : ℕ
  pub is_pinned : Bool
  pub data_class : Bytes
  pub sensitivity : Bytes
  pub created_at : ℕ
  pub last_accessed_at : ℕ

pub data DistanceMetric : Type 0 where
  cosine l2 dot : DistanceMetric

pub record EmbeddingModelConfig : Type 0 where
  pub model_name : Bytes
  pub dimensions : ℕ
  pub distance_metric : DistanceMetric

abbrev pub agent_memory_embedding_model : EmbeddingModelConfig
agent_memory_embedding_model = record {
  model_name = codes "sentence-transformers/all-MiniLM-L6-v2";
  dimensions = 384;
  distance_metric = cosine;
}

abbrev pub agents_memory_table : Bytes
agents_memory_table = codes "agents_memory_index"
