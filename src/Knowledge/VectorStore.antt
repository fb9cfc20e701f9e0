-- ===== src/Knowledge/VectorStore.antt =====
-- Memory of internal/knowledge/vectorstore/vectorstore.go: the points by their id. Floats are an
-- abstract type; the payloads that the program writes hold texts only.
use go_on_call_agent.Prelude.{
  String, none, some, List, [], ◌∷◌, ◌≡◌, refl, arith, str_eq, eq_iff, if◌then◌else◌,
}
use go_on_call_agent.Dict.{Dict, lookup, insert, entry, IsMap}

module _ (Float : Type 0) where
  pub record Point : Type 0 where
    pub id : String
    pub vector : List Float
    pub payload : Dict String

  -- Upsert
  unfoldable pub upsert : Dict Point → List Point → Dict Point
  upsert m [] = m
  upsert m (p ∷ ps) = upsert (insert p.id p m) ps

  -- Hashes: the points without a hash are left out.
  unfoldable pub hashes : Dict Point → Dict String
  hashes [] = []
  hashes ((k, p) ∷ d) =
      let rest = hashes d in
      let hash = entry p.payload "chunk_hash" in if str_eq hash "" then rest else (k, hash) ∷ rest

  -- The hash of the point at a key, empty if there is none.
  unfoldable pub hash_at : Dict Point → String → String
  hash_at d k = elim (lookup k d) [ none ↦ "" | some p ↦ entry p.payload "chunk_hash" ]

  pub entry-hashes : (d : Dict Point) (k : String) → IsMap d → entry (hashes d) k ≡ hash_at d k
  unfolding hashes hash_at entry lookup
  entry-hashes [] k m = refl
  entry-hashes ((j, p) ∷ d) k m =
      ground
        (arith, m.0, entry-hashes d k m.1, eq_iff j k, eq_iff (entry p.payload "chunk_hash") "")
