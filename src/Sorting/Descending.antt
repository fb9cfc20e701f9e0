-- ===== src/Sorting/Descending.antt =====
-- A list in descending order of a number that no two elements share has only one arrangement: whatever
-- sort.Slice is and whatever order it starts from, the result is the same.
use mathlib.Core.List.{Permᴰ, Memᴰ}
use mathlib.Core.Path.{subst}
use go_on_call_agent.Prelude.{
  zero, suc, take, drop, ℕ, Bool, false, List, [], ◌∷◌, ◌≡◌, ◌≢◌, ◌<◌, refl, sym, ◌∙◌, ap, arith,
  All, ltb, select, select_nil, select-kept, select-left_out, All-select_of, Bool-cases, inl, inr,
}
use go_on_call_agent.Sorting.{Sorter, IsOrder, IsSorted, All-Perm, Memᴰ-Perm, Permᴰ_sym}

All-Memᴰ : {A : Type 0} (P : A → Type 0) {x : A} (l : List A) → All P l → Memᴰ x l → P x
All-Memᴰ P [] a m = elim m [ ]
All-Memᴰ P (y ∷ l) a (Memᴰ.head e) = subst P (sym e) a.0
All-Memᴰ P (y ∷ l) a (Memᴰ.tail m) = All-Memᴰ P l a.1 m

module _ {A : Type 0} (key : A → ℕ) where
  -- No two elements have the same number.
  abbrev pub IsDistinct : List A → Type 0
  IsDistinct [] = Unit
  IsDistinct (x ∷ l) = All (λ y. key x ≢ key y) l × IsDistinct l

  pub IsDistinct-select : (p : A → Bool) (l : List A) → IsDistinct l → IsDistinct (select p l)
  IsDistinct-select p [] d = rw (select_nil p) d
  IsDistinct-select p (x ∷ l) d = elim (Bool-cases (p x)) [
    | inl kept ↦
        rw (select-kept p x l kept)
          (All-select_of (λ y. key x ≢ key y) p l d.0, IsDistinct-select p l d.1)
    | inr left_out ↦ rw (select-left_out p x l left_out) (IsDistinct-select p l d.1)
  ]

  pub IsDistinct-Perm : {l r : List A} → Permᴰ l r → IsDistinct l → IsDistinct r
  IsDistinct-Perm Permᴰ.nil d = d
  IsDistinct-Perm (Permᴰ.cons {b = b} {l₁ = l₁} e p) d = (
    All-Perm (λ y. key b ≢ key y) p (subst (λ z. All (λ y. key z ≢ key y) l₁) e d.0),
    IsDistinct-Perm p d.1,
  )
  IsDistinct-Perm (Permᴰ.swap {l = l} e f) d = (
    (
      λ q. d.0.0 (ap key e ∙ sym q ∙ sym (ap key f)),
      subst (λ z. All (λ y. key z ≢ key y) l) f d.1.0,
    ),
    (subst (λ z. All (λ y. key z ≢ key y) l) e d.0.1, d.1.1),
  )
  IsDistinct-Perm (Permᴰ.trans p q) d = IsDistinct-Perm q (IsDistinct-Perm p d)

  abbrev greater : A → A → Bool
  greater a b = ltb (key b) (key a)

  greater-IsOrder : IsOrder greater
  greater-IsOrder = record {
    asym = λ a b h. ground (arith, h);
    cotrans = λ a b c h. ground (arith, h);
  }

  -- Every element is greater than those behind it.
  abbrev pub IsStrict : List A → Type 0
  IsStrict [] = Unit
  IsStrict (x ∷ l) = All (λ y. key y < key x) l × IsStrict l

  all_below :
      (x : A) (l : List A)
      → All (λ y. greater y x ≡ false) l
      → All (λ y. key x ≢ key y) l
      → All (λ y. key y < key x) l
  all_below x [] s d = tt
  all_below x (y ∷ l) s d = (ground (arith, s.0, d.0), all_below x l s.1 d.1)

  sorted-IsStrict : (l : List A) → IsSorted greater l → IsDistinct l → IsStrict l
  sorted-IsStrict [] s d = tt
  sorted-IsStrict (x ∷ l) s d = (all_below x l s.0 d.0, sorted-IsStrict l s.1 d.1)

  All-take : (P : A → Type 0) (n : ℕ) (l : List A) → All P l → All P (take n l)
  All-take P zero l a = tt
  All-take P (suc n) [] a = tt
  All-take P (suc n) (x ∷ l) a = (a.0, All-take P n l a.1)

  pub IsStrict-take : (n : ℕ) (l : List A) → IsStrict l → IsStrict (take n l)
  IsStrict-take zero l s = tt
  IsStrict-take (suc n) [] s = tt
  IsStrict-take (suc n) (x ∷ l) s = (All-take (λ y. key y < key x) n l s.0, IsStrict-take n l s.1)

  pub IsStrict-drop : (n : ℕ) (l : List A) → IsStrict l → IsStrict (drop n l)
  IsStrict-drop zero l s = s
  IsStrict-drop (suc n) [] s = tt
  IsStrict-drop (suc n) (x ∷ l) s = IsStrict-drop n l s.1

  pub sort-IsStrict : (S : Sorter) (l : List A) → IsDistinct l → IsStrict (S.sort greater l)
  sort-IsStrict S l d =
      sorted-IsStrict (S.sort greater l) (S.sort-IsSorted greater l greater-IsOrder)
        (IsDistinct-Perm (Permᴰ_sym (S.sort-Permᴰ greater l)) d)

  above : (x z : A) (l : List A) → All (λ y. key y < key x) l → Memᴰ z l → key z < key x
  above x z l a m = All-Memᴰ (λ y. key y < key x) l a m

  same_head :
      (x y : A) (l r : List A)
      → IsStrict (x ∷ l)
      → IsStrict (y ∷ r)
      → Memᴰ x (y ∷ r)
      → Memᴰ y (x ∷ l)
      → x ≡ y
  same_head x y l r s t (Memᴰ.head e) back = e
  same_head x y l r s t (Memᴰ.tail m) (Memᴰ.head e) = sym e
  same_head x y l r s t (Memᴰ.tail m) (Memᴰ.tail n) =
      absurd (omega (arith, above y x r t.0 m, above x y l s.0 n))

  in_tail :
      (x y z : A) (l r : List A)
      → x ≡ y
      → All (λ v. key v < key x) l
      → Memᴰ z l
      → Memᴰ z (y ∷ r)
      → Memᴰ z r
  in_tail x y z l r same a m (Memᴰ.head e) =
      absurd (omega (arith, above x z l a m, ap key (e ∙ sym same)))
  in_tail x y z l r same a m (Memᴰ.tail n) = n

  strict_unique :
      (l r : List A)
      → IsStrict l
      → IsStrict r
      → ((z : A) → Memᴰ z l → Memᴰ z r)
      → ((z : A) → Memᴰ z r → Memᴰ z l)
      → l ≡ r
  strict_unique [] [] s t to from = refl
  strict_unique [] (y ∷ r) s t to from = elim (from _ (Memᴰ.head refl)) [ ]
  strict_unique (x ∷ l) [] s t to from = elim (to _ (Memᴰ.head refl)) [ ]
  strict_unique (x ∷ l) (y ∷ r) s t to from =
      let same = same_head x y l r s t (to _ (Memᴰ.head refl)) (from _ (Memᴰ.head refl)) in
      let rest =
        strict_unique l r s.1 t.1 (λ z m. in_tail x y z l r same s.0 m (to _ (Memᴰ.tail m)))
          (λ z m. in_tail y x z r l (sym same) t.0 m (from _ (Memᴰ.tail m))) in
      ap (λ h. h ∷ l) same ∙ ap (λ h. y ∷ h) rest

  -- Two sorters on two arrangements of the same elements give the same list.
  pub sort_unique :
      (S T : Sorter) {l r : List A} → Permᴰ l r → IsDistinct l → S.sort greater l ≡ T.sort greater r
  sort_unique S T {l} {r} p d =
      let there =
        Permᴰ.trans (S.sort-Permᴰ greater l) (Permᴰ.trans p (Permᴰ_sym (T.sort-Permᴰ greater r))) in
      let at_left = IsDistinct-Perm (Permᴰ_sym (S.sort-Permᴰ greater l)) d in
      strict_unique (S.sort greater l) (T.sort greater r)
        (sorted-IsStrict _ (S.sort-IsSorted greater l greater-IsOrder) at_left)
        (sorted-IsStrict _ (T.sort-IsSorted greater r greater-IsOrder)
          (IsDistinct-Perm there at_left))
        (λ z. Memᴰ-Perm there) (λ z. Memᴰ-Perm (Permᴰ_sym there))
