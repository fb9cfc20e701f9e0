-- ===== src/Prelude/Lists.antt =====
-- Lists measured by native numbers, and predicates on lists.
use Prim.Native.Nat.{ℕ, suc, ◌+◌, ◌≤◌}
use mathlib.Core.Path.{◌≡◌, refl, ap, ◌∙◌}
use mathlib.Core.Bool.{Bool, true, false, ◌||◌, ◌&&◌}
use mathlib.Core.Logic.{inl, inr, ◌↔◌}
use mathlib.Core.List.{List, [], ◌∷◌, ◌++◌, Memᴰ}
use go_on_call_agent.Prelude.Tests.{if◌then◌else◌, Bool-cases}
use native.Mathlib.Omega.{arith}

module _ {ℓ} {A : Type ℓ} where
  abbrev pub length : List A → ℕ
  length [] = 0
  length (x ∷ xs) = suc (length xs)

  pub length-append : (xs ys : List A) → length (xs ++ ys) ≡ length xs + length ys
  length-append [] ys = omega arith
  length-append (x ∷ xs) ys = omega (arith, length-append xs ys)

  -- Some element passes the test: a `for` loop that returns at the first hit.
  abbrev pub any : (A → Bool) → List A → Bool
  any p [] = false
  any p (x ∷ xs) = p x || any p xs

  -- The elements that pass the test: a `for` loop that appends them to an empty slice.
  unfoldable pub select : (A → Bool) → List A → List A
  select p [] = []
  select p (x ∷ xs) = let rest = select p xs in if p x then x ∷ rest else rest

  abbrev pub snoc : List A → A → List A
  snoc xs x = xs ++ x ∷ []

-- Every element satisfies the predicate.
abbrev pub All {ℓ κ} : {A : Type ℓ} → (A → Type κ) → List A → Type κ
All P [] = Unit
All P (x ∷ xs) = P x × All P xs

pub All-append {ℓ κ} :
    {A : Type ℓ} (P : A → Type κ) (xs ys : List A) → All P xs → All P ys → All P (xs ++ ys)
All-append P [] ys hx hy = hy
All-append P (x ∷ xs) ys hx hy = (hx.0, All-append P xs ys hx.1 hy)

pub any-select {ℓ} :
    {A : Type ℓ} (p q : A → Bool) (l : List A) → any p (select q l) ≡ any (λ x. q x && p x) l
unfolding select
any-select p q [] = refl
any-select p q (x ∷ xs) = ground (arith, any-select p q xs)

pub All-select {ℓ} : {A : Type ℓ} (q : A → Bool) (l : List A) → All (λ x. q x ≡ true) (select q l)
unfolding select
All-select q [] = tt
All-select q (x ∷ xs) = elim (Bool-cases (q x)) [
  | inl kept ↦ rw (select, kept) (kept, All-select q xs)
  | inr left_out ↦ rw (select, left_out) (All-select q xs)
]

module _ {ℓ} {A : Type ℓ} (p : A → Bool) where
  pub select_nil : select p [] ≡ []
  unfolding select
  select_nil = refl

  pub select-kept : (x : A) (l : List A) → p x ≡ true → select p (x ∷ l) ≡ x ∷ select p l
  unfolding select
  select-kept x l h = rw (select, h) refl

  pub select-left_out : (x : A) (l : List A) → p x ≡ false → select p (x ∷ l) ≡ select p l
  unfolding select
  select-left_out x l h = rw (select, h) refl

pub All-select_of {ℓ} :
    {A : Type ℓ} (P : A → Type 0) (p : A → Bool) (l : List A) → All P l → All P (select p l)
unfolding select
All-select_of P p [] a = tt
All-select_of P p (x ∷ l) a = elim (Bool-cases (p x)) [
  | inl kept ↦ rw (select, kept) (a.0, All-select_of P p l a.1)
  | inr left_out ↦ rw (select, left_out) (All-select_of P p l a.1)
]

-- What a selection holds.
module _ {ℓ} {A : Type ℓ} {x y : A} (p : A → Bool) (l : List A)
    (rest : Memᴰ x (select p l) ↔ ((p x ≡ true) × Memᴰ x l)) where
  selected : p y ≡ true → Memᴰ x (y ∷ select p l) → (p x ≡ true) × Memᴰ x (y ∷ l)
  selected kept (Memᴰ.head e) = (ap p e ∙ kept, Memᴰ.head e)
  selected kept (Memᴰ.tail m) = let (fits, there) = rest.0 m in (fits, Memᴰ.tail there)

  kept_one : p x ≡ true → Memᴰ x (y ∷ l) → Memᴰ x (y ∷ select p l)
  kept_one fits (Memᴰ.head e) = Memᴰ.head e
  kept_one fits (Memᴰ.tail m) = Memᴰ.tail (rest.1 (fits, m))

  dropped : p y ≡ false → p x ≡ true → Memᴰ x (y ∷ l) → Memᴰ x (select p l)
  dropped left_out fits (Memᴰ.head e) = absurd (ground (arith, left_out, fits, ap p e))
  dropped left_out fits (Memᴰ.tail m) = rest.1 (fits, m)

pub Memᴰ-select {ℓ} :
    {A : Type ℓ} {x : A} (p : A → Bool) (l : List A)
    → Memᴰ x (select p l) ↔ ((p x ≡ true) × Memᴰ x l)
unfolding select
Memᴰ-select p [] = (λ m. elim m [ ], λ h. elim h.1 [ ])
Memᴰ-select p (y ∷ l) =
    let rest = Memᴰ-select p l in
    elim (Bool-cases (p y)) [
      | inl kept ↦ rw (select, kept) (selected p l rest kept, λ h. kept_one p l rest h.0 h.1)
      | inr left_out ↦
          rw (select, left_out)
            (
              λ m. let (fits, there) = rest.0 m in (fits, Memᴰ.tail there),
              λ h. dropped p l rest left_out h.0 h.1,
            )
    ]

pub length-select {ℓ} : {A : Type ℓ} (p : A → Bool) (l : List A) → length (select p l) ≤ length l
unfolding select
length-select p [] = omega arith
length-select p (x ∷ l) = ground (arith, length-select p l)
