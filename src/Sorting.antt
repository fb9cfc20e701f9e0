-- ===== src/Sorting.antt =====
-- sort.Slice, and the order of texts. sort.Slice leaves open how it arranges equal elements, so that
-- whoever sorts takes a `Sorter`: any function that permutes the list and orders it.
pub mod Insertion
pub mod Descending
use Prim.Native.Char.{code}
use mathlib.Core.List.{Permᴰ, Memᴰ}
use mathlib.Core.Path.{subst}
use go_on_call_agent.Prelude.{
  length, select, select-kept, select-left_out, ℕ, String, Bool, true, false, List, [], ◌∷◌, ◌≡◌,
  refl, ◌⊎◌, inl, inr, arith, ltb, ◌==◌, not, All, ap, sym, ◌∙◌, any, ◌||◌, if◌then◌else◌,
  Bool-cases,
}

-- Go's `<` on strings: bytes of UTF-8 stand in the order of the code points.
unfoldable pub str_less : String → String → Bool
str_less String.[] String.[] = false
str_less String.[] (String.◌∷◌ d t) = true
str_less (String.◌∷◌ c s) String.[] = false
str_less (String.◌∷◌ c s) (String.◌∷◌ d t) =
    let rest = str_less s t in
    if ltb (code c) (code d) then true else if ltb (code d) (code c) then false else rest

-- A test that sort.Slice may be given: a strict order whose incomparable elements are alike.
pub record IsOrder {A : Type 0} (less : A → A → Bool) : Type 0 where
  pub asym : (a b : A) → less a b ≡ true → less b a ≡ false
  pub cotrans : (a b c : A) → less a c ≡ true → (less a b ≡ true) ⊎ (less b c ≡ true)

-- No element is less than one before it.
abbrev pub IsSorted : {A : Type 0} → (A → A → Bool) → List A → Type 0
IsSorted less [] = Unit
IsSorted less (x ∷ xs) = All (λ y. less y x ≡ false) xs × IsSorted less xs

pub record Sorter : Type 1 where
  pub sort : {A : Type 0} → (A → A → Bool) → List A → List A
  pub sort-Permᴰ : {A : Type 0} (less : A → A → Bool) (l : List A) → Permᴰ (sort less l) l
  pub sort-IsSorted :
      {A : Type 0} (less : A → A → Bool) (l : List A) → IsOrder less → IsSorted less (sort less l)

pub any-Perm : {A : Type 0} (p : A → Bool) {l r : List A} → Permᴰ l r → any p l ≡ any p r
any-Perm p Permᴰ.nil = refl
any-Perm p (Permᴰ.cons e d) = ground (arith, ap p e, any-Perm p d)
any-Perm p (Permᴰ.swap e f) = ground (arith, ap p e, ap p f)
any-Perm p (Permᴰ.trans d e) = any-Perm p d ∙ any-Perm p e

pub All-Perm : {A : Type 0} (P : A → Type 0) {l r : List A} → Permᴰ l r → All P l → All P r
All-Perm P Permᴰ.nil a = a
All-Perm P (Permᴰ.cons e d) a = (subst P e a.0, All-Perm P d a.1)
All-Perm P (Permᴰ.swap e f) a = (subst P f a.1.0, (subst P e a.0, a.1.1))
All-Perm P (Permᴰ.trans d e) a = All-Perm P e (All-Perm P d a)

pub Memᴰ-Perm : {A : Type 0} {x : A} {l r : List A} → Permᴰ l r → Memᴰ x l → Memᴰ x r
Memᴰ-Perm Permᴰ.nil m = m
Memᴰ-Perm (Permᴰ.cons e d) (Memᴰ.head h) = Memᴰ.head (h ∙ e)
Memᴰ-Perm (Permᴰ.cons e d) (Memᴰ.tail m) = Memᴰ.tail (Memᴰ-Perm d m)
Memᴰ-Perm (Permᴰ.swap e f) (Memᴰ.head h) = Memᴰ.tail (Memᴰ.head (h ∙ e))
Memᴰ-Perm (Permᴰ.swap e f) (Memᴰ.tail (Memᴰ.head h)) = Memᴰ.head (h ∙ f)
Memᴰ-Perm (Permᴰ.swap e f) (Memᴰ.tail (Memᴰ.tail m)) = Memᴰ.tail (Memᴰ.tail m)
Memᴰ-Perm (Permᴰ.trans d e) m = Memᴰ-Perm e (Memᴰ-Perm d m)

pub Permᴰ_refl : {A : Type 0} (l : List A) → Permᴰ l l
Permᴰ_refl [] = Permᴰ.nil
Permᴰ_refl (x ∷ xs) = Permᴰ.cons refl (Permᴰ_refl xs)

pub Permᴰ_sym : {A : Type 0} {l r : List A} → Permᴰ l r → Permᴰ r l
Permᴰ_sym Permᴰ.nil = Permᴰ.nil
Permᴰ_sym (Permᴰ.cons e d) = Permᴰ.cons (sym e) (Permᴰ_sym d)
Permᴰ_sym (Permᴰ.swap e f) = Permᴰ.swap (sym f) (sym e)
Permᴰ_sym (Permᴰ.trans d e) = Permᴰ.trans (Permᴰ_sym e) (Permᴰ_sym d)

pub length-Perm : {A : Type 0} {l r : List A} → Permᴰ l r → length l ≡ length r
length-Perm Permᴰ.nil = refl
length-Perm (Permᴰ.cons e d) = omega (arith, length-Perm d)
length-Perm (Permᴰ.swap e f) = refl
length-Perm (Permᴰ.trans d e) = length-Perm d ∙ length-Perm e

select_cons :
    {A : Type 0} (p : A → Bool) (x : A) (l r : List A)
    → Permᴰ (select p l) (select p r)
    → Permᴰ (select p (x ∷ l)) (select p (x ∷ r))
select_cons p x l r d = elim (Bool-cases (p x)) [
  | inl kept ↦ rw (select-kept p x l kept, select-kept p x r kept) (Permᴰ.cons refl d)
  | inr out ↦ rw (select-left_out p x l out, select-left_out p x r out) d
]

select_swap :
    {A : Type 0} (p : A → Bool) (x y : A) (l : List A)
    → Permᴰ (select p (x ∷ y ∷ l)) (select p (y ∷ x ∷ l))
select_swap p x y l = elim (Bool-cases (p x)) [
  | inr out ↦
      rw (select-left_out p x (y ∷ l) out)
        (select_cons p y l (x ∷ l) (rw (select-left_out p x l out) (Permᴰ_refl (select p l))))
  | inl kept ↦ elim (Bool-cases (p y)) [
    | inr out ↦
        rw (select-left_out p y (x ∷ l) out)
          (select_cons p x (y ∷ l) l (rw (select-left_out p y l out) (Permᴰ_refl (select p l))))
    | inl both ↦
        rw
          (
            select-kept p x (y ∷ l) kept,
            select-kept p y l both,
            select-kept p y (x ∷ l) both,
            select-kept p x l kept,
          )
          (Permᴰ.swap refl refl)
  ]
]

pub Permᴰ-select :
    {A : Type 0} (p : A → Bool) {l r : List A} → Permᴰ l r → Permᴰ (select p l) (select p r)
Permᴰ-select p Permᴰ.nil = Permᴰ_refl (select p [])
Permᴰ-select p (Permᴰ.cons {b = y} {l₁ = l} {l₂ = r} e d) =
    subst (λ x. Permᴰ (select p (x ∷ l)) (select p (y ∷ r))) (sym e)
      (select_cons p y l r (Permᴰ-select p d))
Permᴰ-select p (Permᴰ.swap {a = x} {b = y} {a' = u} {l = l} e f) =
    subst (λ v. Permᴰ (select p (x ∷ y ∷ l)) (select p (u ∷ v ∷ l))) e
      (subst (λ v. Permᴰ (select p (x ∷ y ∷ l)) (select p (v ∷ x ∷ l))) f (select_swap p x y l))
Permᴰ-select p (Permᴰ.trans d e) = Permᴰ.trans (Permᴰ-select p d) (Permᴰ-select p e)

str_less-asym : (s t : String) → str_less s t ≡ true → str_less t s ≡ false
unfolding str_less
str_less-asym String.[] String.[] h = ground (arith, h)
str_less-asym String.[] (String.◌∷◌ d t) h = refl
str_less-asym (String.◌∷◌ c s) String.[] h = ground (arith, h)
str_less-asym (String.◌∷◌ c s) (String.◌∷◌ d t) h = ground (arith, h, str_less-asym s t)

str_less-cotrans :
    (r s t : String) → str_less r t ≡ true → (str_less r s ≡ true) ⊎ (str_less s t ≡ true)
unfolding str_less
str_less-cotrans String.[] String.[] t h = inr h
str_less-cotrans String.[] (String.◌∷◌ c s) t h = inl refl
str_less-cotrans (String.◌∷◌ b r) s String.[] h = ground (arith, h)
str_less-cotrans (String.◌∷◌ b r) String.[] (String.◌∷◌ d t) h = inr refl
str_less-cotrans (String.◌∷◌ b r) (String.◌∷◌ c s) (String.◌∷◌ d t) h =
    ground (arith, h, str_less-cotrans r s t)

-- By a number, and by a text where the numbers are equal.
unfoldable pub by_key : {A : Type 0} → (A → ℕ) → (A → String) → A → A → Bool
by_key time id a b =
    if not (time a == time b) then ltb (time a) (time b) else str_less (id a) (id b)

pub by_key-IsOrder : {A : Type 0} (time : A → ℕ) (id : A → String) → IsOrder (by_key time id)
unfolding by_key
by_key-IsOrder time id = record {
  asym = λ a b h. ground (arith, h, str_less-asym (id a) (id b));
  cotrans = λ a b c h. ground (arith, h, str_less-cotrans (id a) (id b) (id c));
}
