-- ===== src/Knowledge/Index/Again.antt =====
-- A finished index is complete, and indexing again does nothing.
use mathlib.Core.Path.{subst}
use go_on_call_agent.Prelude.{
  String, true, false, none, some, List, [], ◌∷◌, All, ◌≡◌, ◌≢◌, refl, sym, ap, ◌∙◌, arith, inl,
  inr, str_eq, eq_iff, str_eq_self, str_eq-of_ne, Bool-cases, Option-cases, if◌then◌else◌,
}
use go_on_call_agent.Errors.{Error, Result-cases}
use go_on_call_agent.Dict.{Dict, lookup, insert, entry, IsMap}
use go_on_call_agent.Dict.Laws.{lookup-insert, insert-IsMap}
use go_on_call_agent.Knowledge.{Chunk}
use go_on_call_agent.Knowledge.VectorStore.{Point, upsert, hashes, hash_at, entry-hashes}
use go_on_call_agent.Knowledge.Index.{
  Indexing, Embedder, one_vector, chunk_hash, chunk_point, embed_chunk, index_loop, index,
}

-- No two chunks have one id.
abbrev pub AreDistinct : List Chunk → Type 0
AreDistinct [] = Unit
AreDistinct (c ∷ cs) = All (λ d. d.id ≢ c.id) cs × AreDistinct cs

module _ (Float : Type 0) (digest : String → String) (embed : Embedder Float) where
  -- The store holds the chunk's hash.
  abbrev pub IsIndexed : Indexing Float → Chunk → Type 0
  IsIndexed s c = hash_at Float s.points c.id ≡ chunk_hash Float digest embed c

  -- What embedding a chunk without an error does.
  embed_chunk-of_none :
      (c : Chunk) (s : Indexing Float)
      → (embed_chunk Float digest embed c s).0 ≡ none
      → (v : List Float) × ((embed_chunk Float digest embed c s).1.points
          ≡ insert c.id (chunk_point Float digest embed c v) s.points)
  unfolding embed_chunk upsert chunk_point
  embed_chunk-of_none c s h = elim (Result-cases (embed s.embedded (c.content ∷ []))) [
    | inr (e, refused) ↦ ground (arith, h, refused)
    | inl (vectors, answered) ↦ elim (Option-cases (one_vector Float vectors)) [
      | inl nothing ↦ ground (arith, h, answered, nothing)
      | inr (v, one) ↦ (v, ground (arith, answered, one))
    ]
  ]

  stored_hash :
      (c : Chunk) (v : List Float) (d : Dict (Point Float)) (k : String)
      → hash_at Float (insert c.id (chunk_point Float digest embed c v) d) k
        ≡ (if str_eq c.id k then chunk_hash Float digest embed c else hash_at Float d k)
  unfolding hash_at chunk_point entry lookup
  stored_hash c v d k = ground (arith, lookup-insert c.id k (chunk_point Float digest embed c v) d)

  -- What a loop that ends without an error has done.
  record Done (cs : List Chunk) (s s' : Indexing Float) : Type 0 where
    indexed : All (IsIndexed s') cs
    elsewhere :
        (k : String) → All (λ c. c.id ≢ k) cs → hash_at Float s'.points k ≡ hash_at Float s.points k
    is_map : IsMap s'.points

  loop_same :
      (existing : Dict String) (c : Chunk) (cs : List Chunk) (s : Indexing Float)
      → str_eq (entry existing c.id) (chunk_hash Float digest embed c) ≡ true
      → index_loop Float digest embed existing (c ∷ cs) s
        ≡ index_loop Float digest embed existing cs s
  unfolding index_loop
  loop_same existing c cs s same = rw (index_loop, same) refl

  loop_changed :
      (existing : Dict String) (c : Chunk) (cs : List Chunk) (s : Indexing Float)
      → str_eq (entry existing c.id) (chunk_hash Float digest embed c) ≡ false
      → (embed_chunk Float digest embed c s).0 ≡ none
      → index_loop Float digest embed existing (c ∷ cs) s
        ≡ index_loop Float digest embed existing cs (embed_chunk Float digest embed c s).1
  unfolding index_loop
  loop_changed existing c cs s changed fine = rw (index_loop, changed, fine) refl

  loop_failed :
      (existing : Dict String) (c : Chunk) (cs : List Chunk) (s : Indexing Float) (e : Error)
      → str_eq (entry existing c.id) (chunk_hash Float digest embed c) ≡ false
      → (embed_chunk Float digest embed c s).0 ≡ some e
      → (index_loop Float digest embed existing (c ∷ cs) s).0 ≡ some e
  unfolding index_loop
  loop_failed existing c cs s e changed failed = rw (index_loop, changed, failed) refl

  hash_after :
      (c : Chunk) (s : Indexing Float) (k : String)
      → (embed_chunk Float digest embed c s).0 ≡ none
      → hash_at Float (embed_chunk Float digest embed c s).1.points k
        ≡ (if str_eq c.id k then chunk_hash Float digest embed c else hash_at Float s.points k)
  hash_after c s k fine =
      let (v, put) = embed_chunk-of_none c s fine in
      ap (λ d. hash_at Float d k) put ∙ stored_hash c v s.points k

  other_hash :
      (c : Chunk) (s : Indexing Float) (k : String)
      → (embed_chunk Float digest embed c s).0 ≡ none
      → c.id ≢ k
      → hash_at Float (embed_chunk Float digest embed c s).1.points k ≡ hash_at Float s.points k
  other_hash c s k fine differ = ground (arith, hash_after c s k fine, str_eq-of_ne c.id k differ)

  own_hash :
      (c : Chunk) (s : Indexing Float)
      → (embed_chunk Float digest embed c s).0 ≡ none
      → hash_at Float (embed_chunk Float digest embed c s).1.points c.id
        ≡ chunk_hash Float digest embed c
  own_hash c s fine = ground (arith, hash_after c s c.id fine, str_eq_self c.id)

  -- The chunks still to come agree with the hashes that were read, also after this one.
  still :
      (existing : Dict String) (c : Chunk) (s : Indexing Float) (cs : List Chunk)
      → (embed_chunk Float digest embed c s).0 ≡ none
      → All (λ d. d.id ≢ c.id) cs
      → All (λ d. hash_at Float s.points d.id ≡ entry existing d.id) cs
      → All
          (λ d.
            hash_at Float (embed_chunk Float digest embed c s).1.points d.id ≡ entry existing d.id)
          cs
  still existing c s [] fine differ agree = tt
  still existing c s (d ∷ ds) fine differ agree = (
    other_hash c s d.id fine (λ e. differ.0 (sym e)) ∙ agree.0,
    still existing c s ds fine differ.1 agree.1,
  )

  loop-Done :
      (existing : Dict String) (cs : List Chunk) (s : Indexing Float)
      → AreDistinct cs
      → IsMap s.points
      → All (λ c. hash_at Float s.points c.id ≡ entry existing c.id) cs
      → (index_loop Float digest embed existing cs s).0 ≡ none
      → Done cs s (index_loop Float digest embed existing cs s).1
  unfolding index_loop
  loop-Done existing [] s distinct m agree h = record {
    indexed = tt;
    elsewhere = λ k _. refl;
    is_map = m;
  }
  loop-Done existing (c ∷ cs) s distinct m agree h =
      elim (Bool-cases (str_eq (entry existing c.id) (chunk_hash Float digest embed c))) [
        | inl same ↦
            let step = loop_same existing c cs s same in
            let rest =
              loop-Done existing cs s distinct.1 m agree.1 (ap (λ p. p.0) (sym step) ∙ h) in
            subst (λ p. Done (c ∷ cs) s p.1) (sym step)
              (record {
                indexed = (
                  rest.elsewhere c.id distinct.0
                      ∙ agree.0
                      ∙ (eq_iff (entry existing c.id) (chunk_hash Float digest embed c)).0 same,
                  rest.indexed,
                );
                elsewhere = λ k d. rest.elsewhere k d.1;
                is_map = rest.is_map;
              })
        | inr changed ↦ elim (Option-cases (embed_chunk Float digest embed c s).0) [
          | inr (e, failed) ↦ ground (arith, h, loop_failed existing c cs s e changed failed)
          | inl fine ↦
              let step = loop_changed existing c cs s changed fine in
              let (v, put) = embed_chunk-of_none c s fine in
              let rest =
                loop-Done existing cs (embed_chunk Float digest embed c s).1 distinct.1
                  (subst IsMap (sym put)
                    (insert-IsMap c.id (chunk_point Float digest embed c v) s.points m))
                  (still existing c s cs fine distinct.0 agree.1) (ap (λ p. p.0) (sym step) ∙ h) in
              subst (λ p. Done (c ∷ cs) s p.1) (sym step)
                (record {
                  indexed = (rest.elsewhere c.id distinct.0 ∙ own_hash c s fine, rest.indexed);
                  elsewhere = λ k d. rest.elsewhere k d.1 ∙ other_hash c s k fine d.0;
                  is_map = rest.is_map;
                })
        ]
      ]

  -- Where the hashes that were read are those of the chunks, the loop does nothing.
  loop_idle :
      (existing : Dict String) (cs : List Chunk) (s : Indexing Float)
      → All (λ c. entry existing c.id ≡ chunk_hash Float digest embed c) cs
      → index_loop Float digest embed existing cs s ≡ (none, s)
  unfolding index_loop
  loop_idle existing [] s h = refl
  loop_idle existing (c ∷ cs) s h =
      loop_same existing c cs s
        ((eq_iff (entry existing c.id) (chunk_hash Float digest embed c)).1 h.0)
      ∙ loop_idle existing cs s h.1

  read_hashes :
      (d : Dict (Point Float)) (cs : List Chunk)
      → IsMap d
      → All (λ c. hash_at Float d c.id ≡ entry (hashes Float d) c.id) cs
  read_hashes d [] m = tt
  read_hashes d (c ∷ cs) m = (sym (entry-hashes Float d c.id m), read_hashes d cs m)

  now_read :
      (s : Indexing Float) (cs : List Chunk)
      → IsMap s.points
      → All (IsIndexed s) cs
      → All (λ c. entry (hashes Float s.points) c.id ≡ chunk_hash Float digest embed c) cs
  now_read s [] m h = tt
  now_read s (c ∷ cs) m h = (entry-hashes Float s.points c.id m ∙ h.0, now_read s cs m h.1)

  -- If indexing distinct chunks ends without an error, the store holds the hash of every chunk's
  -- present content, and indexing the same chunks again embeds nothing and changes nothing.
  pub index_again :
      (chunks : List Chunk) (s s' : Indexing Float)
      → AreDistinct chunks
      → IsMap s.points
      → index Float digest embed chunks s ≡ (none, s')
      → All (IsIndexed s') chunks × (index Float digest embed chunks s' ≡ (none, s'))
  unfolding index
  index_again chunks s s' distinct m h =
      let done = subst (Done chunks s) (ap (λ p. p.1) h) (
        loop-Done (hashes Float s.points) chunks s distinct m (read_hashes s.points chunks m)
          (ap (λ p. p.0) h)) in
      (
        done.indexed,
        loop_idle (hashes Float s'.points) chunks s' (now_read s' chunks done.is_map done.indexed),
      )
