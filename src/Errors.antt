-- ===== src/Errors.antt =====
-- Go's error values, as far as the program reads them: the sentinels that `errors.Is` finds in the
-- chain, and the text. The sentinels are those of internal/incident/repository/repository.go,
-- internal/incident/service/service.go and internal/execution/approval/service.go.
use go_on_call_agent.Prelude.{
  ℕ, String, Bool, true, false, List, [], ◌∷◌, ◌++◌, any, ◌==◌, ◌<>◌, ◌≡◌, refl, ap, ◌⊎◌, inl, inr,
  arith,
}

pub data Sentinel : Type 0 where
  not_found conflict concurrent_modification : Sentinel
  invalid_input invalid_transition : Sentinel
  not_pending invalid_request expired result_unknown : Sentinel

abbrev pub sentinel_text : Sentinel → String
sentinel_text not_found = "incident not found"
sentinel_text conflict = "incident already exists"
sentinel_text concurrent_modification = "state changed concurrently"
sentinel_text invalid_input = "invalid incident input"
sentinel_text invalid_transition = "invalid incident transition"
sentinel_text not_pending = "approval is not pending"
sentinel_text invalid_request = "invalid approval request"
sentinel_text expired = "approval expired"
sentinel_text result_unknown = "action result unknown"

abbrev pub sentinel_index : Sentinel → ℕ
sentinel_index not_found = 0
sentinel_index conflict = 1
sentinel_index concurrent_modification = 2
sentinel_index invalid_input = 3
sentinel_index invalid_transition = 4
sentinel_index not_pending = 5
sentinel_index invalid_request = 6
sentinel_index expired = 7
sentinel_index result_unknown = 8

pub record Error : Type 0 where
  pub chain : List Sentinel
  pub text : String

-- A sentinel returned as it is.
abbrev pub sentinel : Sentinel → Error
sentinel s = record { chain = s ∷ []; text = sentinel_text s }

-- errors.New, and fmt.Errorf with no %w.
abbrev pub plain : String → Error
plain t = record { chain = []; text = t }

-- fmt.Errorf(before + "%w" + after, ..., e, ...).
abbrev pub wrap : String → Error → String → Error
wrap before e after = record { chain = e.chain; text = before <> e.text <> after }

-- errors.Join.
abbrev pub join : Error → Error → Error
join e f = record { chain = e.chain ++ f.chain; text = e.text <> "\n" <> f.text }

-- errors.Is.
abbrev pub is : Error → Sentinel → Bool
is e s = any (λ t. sentinel_index t == sentinel_index s) e.chain

pub data Result {ℓ} (A : Type ℓ) : Type ℓ where
  ok : A → Result A
  err : Error → Result A

abbrev pub map_result {ℓ κ} : {A : Type ℓ} {B : Type κ} → (A → B) → Result A → Result B
map_result f (ok a) = ok (f a)
map_result f (err e) = err e

abbrev pub is_err {ℓ} : {A : Type ℓ} → Result A → Bool
is_err (ok a) = false
is_err (err e) = true

pub Result-cases {ℓ} :
    {A : Type ℓ} (r : Result A) → ((a : A) × (r ≡ ok a)) ⊎ ((e : Error) × (r ≡ err e))
Result-cases (ok a) = inl (a, refl)
Result-cases (err e) = inr (e, refl)

-- a, err := f(); if err != nil { return zero, err }
infixl 15 ◌>>=◌
abbrev pub ◌>>=◌ {ℓ κ} : {A : Type ℓ} {B : Type κ} → Result A → (A → Result B) → Result B
ok a >>= k = k a
err e >>= k = err e

pub bind-of_ok {ℓ κ} :
    {A : Type ℓ} {B : Type κ} (r : Result A) (k : A → Result B) (b : B)
    → (r >>= k) ≡ ok b
    → (a : A) × (r ≡ ok a) × (k a ≡ ok b)
bind-of_ok (ok a) k b h = (a, refl, h)
bind-of_ok (err e) k b h = ground (arith, h)

pub ok_injective {ℓ} : {A : Type ℓ} (a b : A) → ok a ≡ ok b → a ≡ b
ok_injective a b h = ap (λ r. elim r [ ok x ↦ x | err e ↦ a ]) h
