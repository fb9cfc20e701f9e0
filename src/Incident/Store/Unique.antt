-- ===== src/Incident/Store/Unique.antt =====
-- At most one incident of a fingerprint is not terminal: what the partial unique index
-- idx_incident_active_fingerprint promises, as an invariant of the in-memory repository.
use go_on_call_agent.Prelude.{
  String, false, some, [], any, ◌≡◌, ◌≢◌, sym, ◌∙◌, arith, eq_iff, String-cases, inl, inr, ◌⊎◌,
}
use go_on_call_agent.Dict.{Dict, lookup, insert, values, IsMap}
use go_on_call_agent.Dict.Laws.{lookup-insert, insert-IsMap, any-values-lookup}
use go_on_call_agent.Incident.{Incident, is_terminal}
use go_on_call_agent.Incident.Store.{blocks}

pub record IsUnique (items : Dict Incident) : Type 0 where
  pub mapped : IsMap items
  pub keyed : (k : String) (a : Incident) → lookup k items ≡ some a → a.id ≡ k
  pub one_active :
      (j k : String) (a b : Incident)
      → lookup j items ≡ some a
      → lookup k items ≡ some b
      → is_terminal a.status ≡ false
      → is_terminal b.status ≡ false
      → a.fingerprint ≡ b.fingerprint
      → a.fingerprint ≢ ""
      → j ≡ k

pub IsUnique-nil : IsUnique []
unfolding lookup
IsUnique-nil = record { mapped = tt; keyed = λ k a h. cc; one_active = λ j k a b h. cc }

module _ (items : Dict Incident) (valid : IsUnique items) (inc : Incident) where
  -- An entry of the map after the write is the new one or an old one.
  lookup_after :
      (k : String) (a : Incident)
      → lookup k (insert inc.id inc items) ≡ some a
      → ((k ≡ inc.id) × (a ≡ inc)) ⊎ ((k ≢ inc.id) × (lookup k items ≡ some a))
  lookup_after k a h = elim (String-cases inc.id k) [
    | inl same ↦ inl (sym same, ground (arith, lookup-insert inc.id k inc items, eq_iff inc.id k))
    | inr differ ↦
        inr (λ e. differ (sym e), ground (arith, lookup-insert inc.id k inc items, eq_iff inc.id k))
  ]

  insert-keyed :
      (k : String) (a : Incident) → lookup k (insert inc.id inc items) ≡ some a → a.id ≡ k
  insert-keyed k a h = elim (lookup_after k a h) [
    | inl (same, new) ↦ rw (same, new)
    | inr (differ, old) ↦ valid.keyed k a old
  ]

  -- The write keeps the invariant if no other active incident has the fingerprint.
  pub insert-IsUnique :
      ((k : String) (b : Incident)
        → k ≢ inc.id
        → lookup k items ≡ some b
        → is_terminal b.status ≡ false
        → is_terminal inc.status ≡ false
        → inc.fingerprint ≢ ""
        → inc.fingerprint ≢ b.fingerprint)
      → IsUnique (insert inc.id inc items)
  insert-IsUnique alone = record {
    mapped = insert-IsMap inc.id inc items valid.mapped;
    keyed = insert-keyed;
    one_active = λ j k a b hj hk aa ab same ne.
        one j k a b (lookup_after j a hj) (lookup_after k b hk) aa ab same ne;
  }
    where
      one :
          (j k : String) (a b : Incident)
          → ((j ≡ inc.id) × (a ≡ inc)) ⊎ ((j ≢ inc.id) × (lookup j items ≡ some a))
          → ((k ≡ inc.id) × (b ≡ inc)) ⊎ ((k ≢ inc.id) × (lookup k items ≡ some b))
          → is_terminal a.status ≡ false
          → is_terminal b.status ≡ false
          → a.fingerprint ≡ b.fingerprint
          → a.fingerprint ≢ ""
          → j ≡ k
      one j k a b (inl (ej, ea)) (inl (ek, eb)) aa ab same ne = ej ∙ sym ek
      one j k a b (inl (ej, ea)) (inr (nk, hk)) aa ab same ne =
          absurd (alone k b nk hk ab (rw (← ea) aa) (rw (← ea) ne) (rw (← ea) same))
      one j k a b (inr (nj, hj)) (inl (ek, eb)) aa ab same ne =
          absurd
            (alone j a nj hj aa (rw (← eb) ab) (λ e. ne (same ∙ rw eb e)) (rw (← eb) (sym same)))
      one j k a b (inr (nj, hj)) (inr (nk, hk)) aa ab same ne =
          valid.one_active j k a b hj hk aa ab same ne

  -- A creation that no stored incident blocks.
  pub create-IsUnique : any (blocks inc) (values items) ≡ false → IsUnique (insert inc.id inc items)
  unfolding blocks
  create-IsUnique clear = insert-IsUnique λ k b _ found active _ ne same. ground (
    arith,
    any-values-lookup (blocks inc) items k b clear found,
    eq_iff b.fingerprint "",
    eq_iff b.fingerprint inc.fingerprint,
  )

  -- A rewrite of a stored incident that keeps its fingerprint and revives no terminal incident.
  pub update-IsUnique :
      (cur : Incident)
      → lookup inc.id items ≡ some cur
      → inc.fingerprint ≡ cur.fingerprint
      → (is_terminal inc.status ≡ false → is_terminal cur.status ≡ false)
      → IsUnique (insert inc.id inc items)
  update-IsUnique cur found fp alive = insert-IsUnique λ k b nk hk ab ai ne same.
      nk (
        valid.one_active k inc.id b cur hk found ab (alive ai) (sym same ∙ fp) (λ e. ne (same ∙ e)))
