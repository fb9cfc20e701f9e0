-- ===== src/Knowledge/Index.antt =====
-- Index of internal/knowledge/retriever/retriever.go, over the memory store: the chunks whose content
-- has changed since the last start are embedded again. The embedder and SHA-256 come from outside.
pub mod Again
use go_on_call_agent.Prelude.{
  ℕ, String, Bool, true, false, Option, none, some, List, [], ◌∷◌, snoc, str_eq, ◌<>◌, ◌||◌, not,
}
use go_on_call_agent.Errors.{Error, plain, Result, ok, err}
use go_on_call_agent.Dict.{Dict, entry}
use go_on_call_agent.Knowledge.{Chunk}
use go_on_call_agent.Knowledge.VectorStore.{Point, upsert, hashes}

module _ (Float : Type 0) where
  -- The store, and the texts that the embedder was given.
  pub record Indexing : Type 0 where
    pub points : Dict (Point Float)
    pub embedded : List String

  -- Embedder, which may answer differently after other calls.
  abbrev pub Embedder : Type 0
  Embedder = List String → List String → Result (List (List Float))

  -- The one vector that the answer must hold.
  unfoldable pub one_vector : List (List Float) → Option (List Float)
  one_vector ((x ∷ v) ∷ []) = some (x ∷ v)
  one_vector _ = none

  module _ (digest : String → String) (embed : Embedder) where
    -- chunkHash
    unfoldable pub chunk_hash : Chunk → String
    chunk_hash c = digest c.content

    unfoldable pub chunk_point : Chunk → List Float → Point Float
    chunk_point c v = record {
      id = c.id;
      vector = v;
      payload =
          ("doc_id", c.doc_id)
          ∷ ("source", c.source)
          ∷ ("doc_type", c.doc_type)
          ∷ ("service", c.service)
          ∷ ("component", c.component)
          ∷ ("incident_type", c.incident_type)
          ∷ ("product_version", c.product_version)
          ∷ ("source_kind", c.source_kind)
          ∷ ("source_url", c.source_url)
          ∷ ("last_verified_at", c.last_verified_at)
          ∷ ("severity", c.severity)
          ∷ ("chunk_hash", chunk_hash c)
          ∷ [];
    }

    -- A chunk that is embedded: the error, or nil, and the state after it. Upsert has no error here.
    unfoldable pub embed_chunk : Chunk → Indexing → Option Error × Indexing
    embed_chunk c s =
        let s' = record s { embedded = snoc s.embedded c.content } in
        elim (embed s.embedded (c.content ∷ [])) [
          | err e ↦ (some e, s')
          | ok vectors ↦ elim (one_vector vectors) [
            | none ↦
                (some (plain ("embed chunk " <> c.id <> ": expected one non-empty vector")), s')
            | some v ↦ (none, record s' { points = upsert Float s.points (chunk_point c v ∷ []) })
          ]
        ]

    -- The loop of Index, with the hashes that were read before it.
    unfoldable pub index_loop : Dict String → List Chunk → Indexing → Option Error × Indexing
    index_loop existing [] s = (none, s)
    index_loop existing (c ∷ cs) s = elim (str_eq (entry existing c.id) (chunk_hash c)) [
      | true ↦ index_loop existing cs s
      | false ↦
          let (e, s') = embed_chunk c s in
          elim e [ some e' ↦ (some e', s') | none ↦ index_loop existing cs s' ]
    ]

    -- Index
    unfoldable pub index : List Chunk → Indexing → Option Error × Indexing
    index chunks s = index_loop (hashes Float s.points) chunks s
