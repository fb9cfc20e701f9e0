-- ===== src/Dict.antt =====
-- A Go map with string keys, as an association list. The list's order stands for the order in which
-- one iteration over the map meets the entries; Go leaves that order open, and no key stands twice.
pub mod Laws
use go_on_call_agent.Prelude.{
  String, Option, none, some, List, [], ◌∷◌, Bool, true, false, ◌≡◌, str_eq, if◌then◌else◌,
}

abbrev pub Dict {ℓ} : Type ℓ → Type ℓ
Dict V = List (String × V)

module _ {ℓ} {V : Type ℓ} where
  -- v, ok := m[k]
  unfoldable pub lookup : String → Dict V → Option V
  lookup k [] = none
  lookup k ((j, v) ∷ d) = if str_eq j k then some v else lookup k d

  -- m[k] = v
  unfoldable pub insert : String → V → Dict V → Dict V
  insert k v [] = (k, v) ∷ []
  insert k v ((j, w) ∷ d) = if str_eq j k then (k, v) ∷ d else (j, w) ∷ insert k v d

  -- for _, v := range m { ... }
  unfoldable pub values : Dict V → List V
  values [] = []
  values ((j, v) ∷ d) = v ∷ values d

-- m[k] of a map to slices: the zero value of a slice is empty.
abbrev pub get_list {ℓ} : {V : Type ℓ} → Option (List V) → List V
get_list none = []
get_list (some l) = l

-- No key stands twice.
abbrev pub IsMap {ℓ} : {V : Type ℓ} → Dict V → Type ℓ
IsMap [] = Unit
IsMap ((j, v) ∷ d) = (lookup j d ≡ none) × IsMap d

-- m[k] of a map to strings: the zero value is empty.
unfoldable pub entry : Dict String → String → String
entry d k = elim (lookup k d) [ some s ↦ s | none ↦ "" ]
