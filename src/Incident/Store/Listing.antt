-- ===== src/Incident/Store/Listing.antt =====
-- List of repository/memory.go: the filtered incidents, the latest first, by pages.
use mathlib.Core.List.{Permᴰ, Memᴰ}
use go_on_call_agent.Prelude.{
  true, ◌⊎◌, ◌↔◌, eq_iff, Memᴰ-select, length-select, ℕ, zero, suc, ◌+◌, ◌≤◌, String, Bool, List,
  [], ◌++◌, ◌≡◌, refl, sym, ap, ◌∙◌, arith, select, take, drop, length, ltb, leb, not, ◌&&◌, str_eq,
  take-append-drop, take_all, drop_all, drop-drop, if◌then◌else◌, Bool-cases, inl, inr,
}
use go_on_call_agent.Prelude.Int.{ℤ, pos, negsuc}
use go_on_call_agent.Dict.{values}
use go_on_call_agent.Incident.{Incident, Status, raw, status_eq, status_eq_iff}
use go_on_call_agent.Incident.Store.{Memory}
use go_on_call_agent.Sorting.{Sorter, Permᴰ_sym, Permᴰ-select, Memᴰ-Perm, length-Perm}
use go_on_call_agent.Sorting.Descending.{
  IsDistinct, IsDistinct-Perm, IsStrict, IsStrict-take, IsStrict-drop, sort-IsStrict, sort_unique,
}

-- The empty service and the empty status filter nothing.
pub record ListFilter : Type 0 where
  pub service : String
  pub status : Status
  pub limit : ℤ
  pub offset : ℤ

unfoldable pub passes : ListFilter → Incident → Bool
passes f inc =
    not (not (str_eq f.service "") && not (str_eq inc.service f.service))
    && not (not (status_eq f.status (raw "")) && not (status_eq inc.status f.status))

unfoldable pub created_after : Incident → Incident → Bool
created_after a b = ltb b.created_at a.created_at

-- out[filter.Offset:], with the early return past the end.
unfoldable pub skip : {A : Type 0} → ℤ → List A → List A
skip (pos n) out = if ltb 0 n then (if leb (length out) n then [] else drop n out) else out
skip (negsuc n) out = out

-- out[:filter.Limit]
unfoldable pub cut : {A : Type 0} → ℤ → List A → List A
cut (pos n) out = if ltb 0 n && ltb n (length out) then take n out else out
cut (negsuc n) out = out

-- The order in which one range over the map meets its values.
abbrev pub Range : Type 0
Range = List Incident → List Incident

module _ (S : Sorter) where
  -- List, with the order of its own range over the map.
  unfoldable pub list : Range → Memory → ListFilter → List Incident
  list range m f =
      cut f.limit
        (skip f.offset (S.sort created_after (select (passes f) (range (values m.items)))))

skip-drop : {A : Type 0} (n : ℕ) (l : List A) → skip (pos n) l ≡ drop n l
unfolding skip
skip-drop zero l = refl
skip-drop (suc n) l = elim (Bool-cases (leb (length l) (suc n))) [
  | inl past ↦ ground (arith, past, drop_all (suc n) l)
  | inr within ↦ ground (arith, within)
]

cut-take : {A : Type 0} (n : ℕ) (l : List A) → 1 ≤ n → cut (pos n) l ≡ take n l
unfolding cut
cut-take n l h = elim (Bool-cases (ltb n (length l))) [
  | inl shorter ↦ ground (arith, h, shorter)
  | inr whole ↦ ground (arith, h, whole, take_all n l)
]

-- The page of a filter from an offset on.
abbrev pub page : ListFilter → ℕ → ℕ → ListFilter
page f offset limit = record f { offset = pos offset; limit = pos limit }

-- The listing that a page is cut from.
abbrev pub whole_listing : Sorter → Range → Memory → ListFilter → List Incident
whole_listing S range m f = S.sort created_after (select (passes f) (range (values m.items)))

list-page :
    (S : Sorter) (range : Range) (m : Memory) (f : ListFilter) (offset n : ℕ)
    → 1 ≤ n
    → list S range m (page f offset n) ≡ take n (drop offset (whole_listing S range m f))
unfolding list passes
list-page S range m f offset n h =
    let xs = whole_listing S range m f in
    ap (cut (pos n)) (skip-drop offset xs) ∙ cut-take n (drop offset xs) h

-- No two incidents that pass the filter were created at one time.
abbrev pub IsUntied : Memory → ListFilter → Type 0
IsUntied m f = IsDistinct (λ inc. inc.created_at) (select (passes f) (values m.items))

-- A range meets every value once, in some order.
abbrev pub IsRange : Memory → Range → Type 0
IsRange m range = Permᴰ (range (values m.items)) (values m.items)

whole_listing-same :
    (S : Sorter) (p q : Range) (m : Memory) (f : ListFilter)
    → IsUntied m f
    → IsRange m p
    → IsRange m q
    → whole_listing S p m f ≡ whole_listing S q m f
unfolding created_after
whole_listing-same S p q m f untied hp hq =
    let to = Permᴰ-select (passes f) hp in
    let from = Permᴰ_sym (Permᴰ-select (passes f) hq) in
    sort_unique (λ inc. inc.created_at) S S (Permᴰ.trans to from)
      (IsDistinct-Perm (λ inc. inc.created_at) (Permᴰ_sym to) untied)

-- The latest first.
abbrev pub IsLatestFirst : List Incident → Type 0
IsLatestFirst l = IsStrict (λ inc. inc.created_at) l

list-IsLatestFirst :
    (S : Sorter) (range : Range) (m : Memory) (f : ListFilter) (offset n : ℕ)
    → IsUntied m f
    → IsRange m range
    → 1 ≤ n
    → IsLatestFirst (list S range m (page f offset n))
unfolding created_after
list-IsLatestFirst S range m f offset n untied h hn =
    let at = λ (inc : Incident). inc.created_at in
    let chosen = select (passes f) (range (values m.items)) in
    let distinct = IsDistinct-Perm at (Permᴰ_sym (Permᴰ-select (passes f) h)) untied in
    rw (list-page S range m f offset n hn) (
      IsStrict-take at n (drop offset (whole_listing S range m f))
        (IsStrict-drop at offset (whole_listing S range m f) (sort-IsStrict at S chosen distinct)))

pages :
    (S : Sorter) (first second both : Range) (m : Memory) (f : ListFilter) (offset n k : ℕ)
    → IsUntied m f
    → IsRange m first
    → IsRange m second
    → IsRange m both
    → 1 ≤ n
    → 1 ≤ k
    → list S first m (page f offset n) ++ list S second m (page f (offset + n) k)
      ≡ list S both m (page f offset (n + k))
pages S first second both m f offset n k untied h1 h2 h3 hn hk =
    let xs = whole_listing S both m f in
    rw
      (
        list-page S first m f offset n hn,
        list-page S second m f (offset + n) k hk,
        list-page S both m f offset (n + k) (omega (arith, hn)),
        whole_listing-same S first both m f untied h1 h3,
        whole_listing-same S second both m f untied h2 h3,
        sym (drop-drop offset n xs),
      )
      (take-append-drop n k (drop offset xs))

-- What a filter asks for: its service and its status, each of which may be empty.
abbrev pub IsMatch : ListFilter → Incident → Type 0
IsMatch f inc =
    ((f.service ≡ "") ⊎ (inc.service ≡ f.service)) × ((f.status ≡ raw "") ⊎ (inc.status ≡ f.status))

passes_iff : (f : ListFilter) (inc : Incident) → (passes f inc ≡ true) ↔ IsMatch f inc
unfolding passes
passes_iff f inc = ground (
  arith,
  eq_iff f.service "",
  eq_iff inc.service f.service,
  status_eq_iff f.status (raw ""),
  status_eq_iff inc.status f.status,
)

-- A page that is large enough holds exactly the stored incidents that the filter asks for.
list_complete :
    (S : Sorter) (range : Range) (m : Memory) (f : ListFilter) (n : ℕ) (inc : Incident)
    → IsRange m range
    → 1 ≤ n
    → length (values m.items) ≤ n
    → Memᴰ inc (list S range m (page f 0 n)) ↔ (IsMatch f inc × Memᴰ inc (values m.items))
list_complete S range m f n inc h hn large =
    let chosen = select (passes f) (range (values m.items)) in
    let sorted = S.sort-Permᴰ created_after chosen in
    let short : length (whole_listing S range m f) ≤ n = omega (
      arith,
      large,
      length-Perm sorted,
      length-select (passes f) (range (values m.items)),
      length-Perm h,
    ) in
    let here = Memᴰ-select {x = inc} (passes f) (range (values m.items)) in
    rw (list-page S range m f 0 n hn, take_all n (whole_listing S range m f) short)
      (
        λ there.
            let (fits, met) = here.0 (Memᴰ-Perm sorted there) in
            ((passes_iff f inc).0 fits, Memᴰ-Perm h met),
        λ asked.
            Memᴰ-Perm (Permᴰ_sym sorted)
              (here.1 ((passes_iff f inc).1 asked.0, Memᴰ-Perm (Permᴰ_sym h) asked.1)),
      )

-- Where no two of the incidents that pass the filter were created at one time, a page has the latest
-- first, and two pages in a row are the page of their lengths together, whatever order each of the calls
-- meets the map in: the pages of a listing leave no incident out and repeat none, while the store does
-- not change. A first page at least as long as the store holds exactly the stored incidents of the
-- filter's service and status.
pub list-pages :
    (S : Sorter) (first second both : Range) (m : Memory) (f : ListFilter) (offset n k : ℕ)
    → IsUntied m f
    → IsRange m first
    → IsRange m second
    → IsRange m both
    → 1 ≤ n
    → 1 ≤ k
    → (list S first m (page f offset n) ++ list S second m (page f (offset + n) k)
        ≡ list S both m (page f offset (n + k)))
      × IsLatestFirst (list S both m (page f offset (n + k)))
      × ((inc : Incident)
          → length (values m.items) ≤ n + k
          → Memᴰ inc (list S both m (page f 0 (n + k)))
            ↔ (IsMatch f inc × Memᴰ inc (values m.items)))
list-pages S first second both m f offset n k untied h1 h2 h3 hn hk = (
  pages S first second both m f offset n k untied h1 h2 h3 hn hk,
  list-IsLatestFirst S both m f offset (n + k) untied h3 (omega (arith, hn)),
  λ inc large. list_complete S both m f (n + k) inc h3 (omega (arith, hn)) large,
)
