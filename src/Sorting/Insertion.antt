-- ===== src/Sorting/Insertion.antt =====
-- Insertion sort, which keeps what a `Sorter` promises.
use mathlib.Core.List.{Permᴰ}
use go_on_call_agent.Prelude.{
  Bool, false, List, [], ◌∷◌, ◌≡◌, refl, arith, All, inl, inr, Bool-cases, if◌then◌else◌,
}
use go_on_call_agent.Sorting.{IsOrder, IsSorted, Sorter, All-Perm, Permᴰ_refl, Permᴰ_sym}

unfoldable pub insert : {A : Type 0} → (A → A → Bool) → A → List A → List A
insert less x [] = x ∷ []
insert less x (y ∷ ys) = let rest = insert less x ys in if less y x then y ∷ rest else x ∷ y ∷ ys

unfoldable pub sort : {A : Type 0} → (A → A → Bool) → List A → List A
sort less [] = []
sort less (x ∷ xs) = insert less x (sort less xs)

insert-Permᴰ :
    {A : Type 0} (less : A → A → Bool) (x : A) (l : List A) → Permᴰ (insert less x l) (x ∷ l)
unfolding insert
insert-Permᴰ less x [] = Permᴰ_refl (x ∷ [])
insert-Permᴰ less x (y ∷ ys) = elim (Bool-cases (less y x)) [
  | inl before ↦
      rw (insert, before)
        (Permᴰ.trans (Permᴰ.cons refl (insert-Permᴰ less x ys)) (Permᴰ.swap refl refl))
  | inr after ↦ rw (insert, after) (Permᴰ_refl (x ∷ y ∷ ys))
]

pub sort-Permᴰ : {A : Type 0} (less : A → A → Bool) (l : List A) → Permᴰ (sort less l) l
unfolding sort
sort-Permᴰ less [] = Permᴰ.nil
sort-Permᴰ less (x ∷ xs) =
    Permᴰ.trans (insert-Permᴰ less x (sort less xs)) (Permᴰ.cons refl (sort-Permᴰ less xs))

module _ {A : Type 0} (less : A → A → Bool) (order : IsOrder less) where
  -- What is not less than the head is not less than the new element before it.
  below :
      (x y : A) (ys : List A)
      → less y x ≡ false
      → All (λ z. less z y ≡ false) ys
      → All (λ z. less z x ≡ false) ys
  below x y [] h a = tt
  below x y (z ∷ zs) h a = (ground (arith, h, a.0, order.cotrans z y x), below x y zs h a.1)

  insert-IsSorted : (x : A) (l : List A) → IsSorted less l → IsSorted less (insert less x l)
  unfolding insert
  insert-IsSorted x [] s = (tt, tt)
  insert-IsSorted x (y ∷ ys) s = elim (Bool-cases (less y x)) [
    | inl before ↦
        rw (insert, before)
          (
            All-Perm (λ z. less z y ≡ false) (Permᴰ_sym (insert-Permᴰ less x ys))
                (order.asym y x before, s.0),
            insert-IsSorted x ys s.1,
          )
    | inr after ↦ rw (insert, after) ((after, below x y ys after s.0), s)
  ]

  pub sort-IsSorted : (l : List A) → IsSorted less (sort less l)
  unfolding sort
  sort-IsSorted [] = tt
  sort-IsSorted (x ∷ xs) = insert-IsSorted x (sort less xs) (sort-IsSorted xs)

abbrev pub insertion : Sorter
insertion = record {
  sort = sort;
  sort-Permᴰ = sort-Permᴰ;
  sort-IsSorted = λ less l order. sort-IsSorted less order l;
}
