-- ===== src/Incident/Store/Search.antt =====
-- The search loops: what they return is stored, and they miss nothing.
use go_on_call_agent.Prelude.{
  String, Bool, true, false, Option, none, some, List, [], ◌∷◌, any, ◌≡◌, ◌≢◌, refl, sym, ◌∙◌,
  arith, eq_iff, Bool-cases, inl, inr, ◌⊎◌,
}
use go_on_call_agent.Errors.{Result-cases, ok, err, Error}
use go_on_call_agent.Dict.{Dict, lookup, values, IsMap}
use go_on_call_agent.Dict.Laws.{any-values-lookup}
use go_on_call_agent.Incident.{Incident, is_terminal}
use go_on_call_agent.Incident.Store.{
  Memory, newest, newer, is_active_of, get_active_by_fingerprint, or_not_found,
}
use go_on_call_agent.Incident.Store.Unique.{IsUnique}

newer-cases :
    (found : Option Incident) (v : Incident) → (newer found v ≡ some v) ⊎ (newer found v ≡ found)
newer-cases none v = inl refl
newer-cases (some f) v = ground arith

module _ (keep : Incident → Bool) where
  later_entry :
      (j k : String) (v i : Incident) (d : Dict Incident)
      → lookup j d ≡ none
      → lookup k d ≡ some i
      → lookup k ((j, v) ∷ d) ≡ some i
  unfolding lookup
  later_entry j k v i d absent found = ground (arith, eq_iff j k)

  -- What the loop finds was found before, or stands in the map and passes the test.
  pub newest-lookup :
      (d : Dict Incident) (found : Option Incident) (i : Incident)
      → IsMap d
      → newest keep found (values d) ≡ some i
      → (found ≡ some i) ⊎ ((k : String) × (lookup k d ≡ some i) × (keep i ≡ true))
  unfolding newest values
  newest-lookup [] found i h e = inl e
  newest-lookup ((j, v) ∷ d) found i h e = elim (Bool-cases (keep v)) [
    | inr skip ↦ elim (newest-lookup d found i h.1 (rw (newest, skip) at e)) [
      | inl old ↦ inl old
      | inr (k, there, passes) ↦ inr (k, later_entry j k v i d h.0 there, passes)
    ]
    | inl take ↦ elim (newest-lookup d (newer found v) i h.1 (rw (newest, take) at e)) [
      | inl kept ↦ elim (newer-cases found v) [
        | inr old ↦ inl (sym old ∙ kept)
        | inl new ↦ inr (j, unfold lookup in ground (arith, eq_iff j j), ground arith)
      ]
      | inr (k, there, passes) ↦ inr (k, later_entry j k v i d h.0 there, passes)
    ]
  ]

  newest-some : (l : List Incident) (f : Incident) → newest keep (some f) l ≢ none
  unfolding newest
  newest-some [] f h = cc
  newest-some (v ∷ l) f h = ground (arith, newest-some l f, newest-some l v)

  -- If the loop finds nothing, nothing passes the test.
  pub newest-none : (l : List Incident) → newest keep none l ≡ none → any keep l ≡ false
  unfolding newest
  newest-none [] h = refl
  newest-none (v ∷ l) h = ground (arith, newest-none l, newest-some l v)

found_of : (o : Option Incident) (i : Incident) → or_not_found o ≡ ok i → o ≡ some i
found_of none i h = cc
found_of (some j) i h = cc

none_of : (o : Option Incident) (e : Error) → or_not_found o ≡ err e → o ≡ none
none_of none e h = refl
none_of (some j) e h = cc

module _ (m : Memory) (valid : IsUnique m.items) (fingerprint : String) where
  -- The active incident of a fingerprint is stored under its id.
  pub get_active-lookup :
      (i : Incident)
      → get_active_by_fingerprint m fingerprint ≡ ok i
      → (lookup i.id m.items ≡ some i)
        × (i.fingerprint ≡ fingerprint)
        × (is_terminal i.status ≡ false)
  unfolding get_active_by_fingerprint
  get_active-lookup i h =
      elim (newest-lookup (is_active_of fingerprint) m.items none i valid.mapped (found_of _ i h)) [
        | inl e ↦ cc
        | inr (k, there, passes) ↦
            let key : i.id ≡ k = valid.keyed k i there in
            (cc key, ground (arith, eq_iff i.fingerprint fingerprint), ground arith)
      ]

  -- Where there is no active incident, no stored incident of the fingerprint is active.
  pub get_active-none :
      (e : Error) (k : String) (i : Incident)
      → get_active_by_fingerprint m fingerprint ≡ err e
      → lookup k m.items ≡ some i
      → i.fingerprint ≡ fingerprint
      → is_terminal i.status ≡ true
  unfolding get_active_by_fingerprint
  get_active-none e k i h there same = ground (
    arith,
    any-values-lookup (is_active_of fingerprint) m.items k i
        (newest-none (is_active_of fingerprint) (values m.items) (none_of _ e h)) there,
    eq_iff i.fingerprint fingerprint,
  )

-- Whatever order the map is read in, the search finds the one active incident of a fingerprint.
pub get_active_complete :
    (m : Memory) (k : String) (i : Incident)
    → IsUnique m.items
    → lookup k m.items ≡ some i
    → is_terminal i.status ≡ false
    → i.fingerprint ≢ ""
    → get_active_by_fingerprint m i.fingerprint ≡ ok i
get_active_complete m k i valid there active named =
    elim (Result-cases (get_active_by_fingerprint m i.fingerprint)) [
      | inr (e, missing) ↦
          cc (sym active ∙ get_active-none m valid i.fingerprint e k i missing there refl)
      | inl (j, found) ↦
          let (at, same, alive) = get_active-lookup m valid i.fingerprint j found in
          let key : j.id ≡ k =
            valid.one_active j.id k j i at there alive active same (λ e. named (sym same ∙ e)) in
          cc (found, at, there, key)
    ]
