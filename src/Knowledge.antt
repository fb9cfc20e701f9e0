-- ===== src/Knowledge.antt =====
-- internal/knowledge: the chunks of documents, and the index that makes them searchable.
pub mod VectorStore
pub mod Index
use go_on_call_agent.Prelude.{String, List}

-- kmodel.Chunk
pub record Chunk : Type 0 where
  pub id : String
  pub doc_id : String
  pub source : String
  pub doc_type : String
  pub service : String
  pub component : String
  pub incident_type : String
  pub product_version : String
  pub source_kind : String
  pub source_url : String
  pub last_verified_at : String
  pub title : String
  pub content : String
  pub severity : String
  pub tags : List String
