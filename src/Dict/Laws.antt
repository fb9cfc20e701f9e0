-- ===== src/Dict/Laws.antt =====
-- The laws of the map operations.
use mathlib.Core.List.{Memᴰ}
use go_on_call_agent.Prelude.{
  Bool-cases, inl, inr, str_eq_self, String, ◌≡◌, refl, some, Bool, false, [], ◌∷◌, arith, str_eq,
  eq_iff, any, if◌then◌else◌,
}
use go_on_call_agent.Dict.{Dict, lookup, insert, values, IsMap}

module _ {ℓ} {V : Type ℓ} where
  pub lookup-insert :
      (k j : String) (v : V) (d : Dict V)
      → lookup j (insert k v d) ≡ (if str_eq k j then some v else lookup j d)
  unfolding lookup insert
  lookup-insert k j v [] = refl
  lookup-insert k j v ((i, w) ∷ d) =
      ground (arith, eq_iff k j, eq_iff i k, eq_iff i j, lookup-insert k j v d)

  pub insert-IsMap : (k : String) (v : V) (d : Dict V) → IsMap d → IsMap (insert k v d)
  unfolding insert lookup
  insert-IsMap k v [] h = (refl, tt)
  insert-IsMap k v ((i, w) ∷ d) h =
      ground (arith, eq_iff i k, eq_iff k i, insert-IsMap k v d h.1, lookup-insert k i v d)

  -- A scan that finds nothing says so of every key.
  pub any-values-lookup :
      (p : V → Bool) (d : Dict V) (k : String) (v : V)
      → any p (values d) ≡ false
      → lookup k d ≡ some v
      → p v ≡ false
  unfolding values lookup
  any-values-lookup p [] k v h e = cc
  any-values-lookup p ((j, w) ∷ d) k v h e = ground (arith, any-values-lookup p d k v)

  -- The values are what stands under some key.
  pub lookup-Memᴰ : (d : Dict V) (k : String) (v : V) → lookup k d ≡ some v → Memᴰ v (values d)
  unfolding lookup values
  lookup-Memᴰ [] k v h = cc
  lookup-Memᴰ ((j, w) ∷ d) k v h = elim (Bool-cases (str_eq j k)) [
    | inl here ↦ Memᴰ.head (ground (arith, h, here))
    | inr below ↦ Memᴰ.tail (lookup-Memᴰ d k v (ground (arith, h, below)))
  ]

  pub Memᴰ-lookup :
      (d : Dict V) (v : V) → IsMap d → Memᴰ v (values d) → (k : String) × (lookup k d ≡ some v)
  unfolding lookup values
  Memᴰ-lookup [] v h m = elim m [ ]
  Memᴰ-lookup ((j, w) ∷ d) v h (Memᴰ.head e) = (j, ground (arith, str_eq_self j, e))
  Memᴰ-lookup ((j, w) ∷ d) v h (Memᴰ.tail m) =
      let (k, there) = Memᴰ-lookup d v h.1 m in (k, ground (arith, h.0, there, eq_iff j k))
