-- ===== src/Approval/Listing.antt =====
-- The queries of approval_memory.go that return sorted lists.
use mathlib.Core.List.{Memᴰ}
use go_on_call_agent.Prelude.{
  String, Bool, true, false, List, [], ◌∷◌, some, ◌≡◌, ◌<◌, ◌⊎◌, ◌↔◌, arith, select, Memᴰ-select,
  ap, str_eq, All,
}
use go_on_call_agent.Dict.{lookup, values, IsMap}
use go_on_call_agent.Dict.Laws.{lookup-Memᴰ, Memᴰ-lookup}
use go_on_call_agent.Approval.{Approval, Approvals, pending, approval_eq}
use go_on_call_agent.Approval.Writes.{eq-of_approval_eq}
use go_on_call_agent.Sorting.{
  Sorter, IsSorted, str_less, by_key, by_key-IsOrder, Memᴰ-Perm, Permᴰ_sym,
}

-- lessByCreatedAtThenID
unfoldable pub less_by_created_at_then_id : Approval → Approval → Bool
less_by_created_at_then_id = by_key (λ a. a.created_at) (λ a. a.id)

module _ (S : Sorter) where
  -- ListByRun
  unfoldable pub list_by_run : Approvals → String → List Approval
  list_by_run m run_id =
      S.sort less_by_created_at_then_id (select (λ a. str_eq a.run_id run_id) (values m))

  -- ListPending
  unfoldable pub list_pending : Approvals → List Approval
  list_pending m =
      S.sort less_by_created_at_then_id (select (λ a. approval_eq a.status pending) (values m))

waits : (a : Approval) → a.status ≡ pending → approval_eq a.status pending ≡ true
waits a h = ap (λ s. approval_eq s pending) h

-- In the order of creation, and by id where the times are equal: no later approval is before an
-- earlier one.
abbrev pub IsBefore : Approval → Approval → Type 0
IsBefore a b =
    (a.created_at < b.created_at) ⊎ ((a.created_at ≡ b.created_at) × (str_less b.id a.id ≡ false))

abbrev pub IsOrdered : List Approval → Type 0
IsOrdered [] = Unit
IsOrdered (a ∷ l) = All (IsBefore a) l × IsOrdered l

not_less-IsBefore : (a b : Approval) → less_by_created_at_then_id b a ≡ false → IsBefore a b
unfolding less_by_created_at_then_id by_key
not_less-IsBefore a b h = ground (arith, h)

all-IsBefore :
    (a : Approval) (l : List Approval)
    → All (λ b. less_by_created_at_then_id b a ≡ false) l
    → All (IsBefore a) l
all-IsBefore a [] h = tt
all-IsBefore a (b ∷ l) h = (not_less-IsBefore a b h.0, all-IsBefore a l h.1)

sorted-IsOrdered : (l : List Approval) → IsSorted less_by_created_at_then_id l → IsOrdered l
sorted-IsOrdered [] h = tt
sorted-IsOrdered (a ∷ l) h = (all-IsBefore a l h.0, sorted-IsOrdered l h.1)

listed-IsOrdered : (S : Sorter) (m : Approvals) → IsOrdered (list_pending S m)
unfolding list_pending less_by_created_at_then_id
listed-IsOrdered S m = sorted-IsOrdered (list_pending S m) (
    S.sort-IsSorted less_by_created_at_then_id
      (select (λ a. approval_eq a.status pending) (values m))
      (by_key-IsOrder (λ a. a.created_at) (λ a. a.id)))

-- The approval is stored and waits.
abbrev pub IsWaiting : Approvals → Approval → Type 0
IsWaiting m a = (a.status ≡ pending) × ((k : String) × (lookup k m ≡ some a))

-- The list of pending approvals is in the order of creation and then of ids, and holds exactly the
-- stored approvals that are pending.
pub list_pending_lem :
    (S : Sorter) (m : Approvals)
    → IsMap m
    → IsOrdered (list_pending S m) × ((a : Approval) → Memᴰ a (list_pending S m) ↔ IsWaiting m a)
unfolding list_pending
list_pending_lem S m mapped =
    let waiting = λ (a : Approval). approval_eq a.status pending in
    let sorted = S.sort-Permᴰ less_by_created_at_then_id (select waiting (values m)) in
    (
      listed-IsOrdered S m,
      λ a. (
        λ there.
            let (waits_now, stored) = (Memᴰ-select waiting (values m)).0 (Memᴰ-Perm sorted there) in
            (eq-of_approval_eq a.status pending waits_now, Memᴰ-lookup m a mapped stored),
        λ h.
            Memᴰ-Perm (Permᴰ_sym sorted)
              ((Memᴰ-select waiting (values m)).1 (waits a h.0, lookup-Memᴰ m h.1.0 a h.1.1)),
      ),
    )
