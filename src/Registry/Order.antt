-- ===== src/Registry/Order.antt =====
-- The registry's two views, the map and the order, agree.
use go_on_call_agent.Prelude.{
  String, Option, none, some, List, [], ◌∷◌, snoc, map, All, All-append, ◌≡◌, refl, sym, ap, ◌∙◌,
  inl, inr, arith, str_eq, eq_iff, str_eq_self, Option-cases, Bool-cases, if◌then◌else◌,
}
use go_on_call_agent.Errors.{Result, ok, err}
use go_on_call_agent.Dict.{Dict, lookup, insert}
use go_on_call_agent.Dict.Laws.{lookup-insert}
use go_on_call_agent.Policy.{RiskLevel}
use go_on_call_agent.Registry.{
  RegisteredTool, Registry, new_registry, register, get, tools_of, all, names,
}

module _ (InvokableTool : Type 0) where
  abbrev Entry : Type 0
  Entry = RegisteredTool InvokableTool

  -- A call of Register: what Info gives, the tool and its risk.
  pub record Registration : Type 0 where
    pub name : Result String
    pub tool : InvokableTool
    pub risk : RiskLevel

  -- The first entry of a name.
  unfoldable pub first_named : String → List Entry → Option Entry
  first_named n [] = none
  first_named n (e ∷ es) = if str_eq e.name n then some e else first_named n es

  -- The entries after one more registration, which counts if its name is new and not empty.
  unfoldable pub add_entry : List Entry → Registration → List Entry
  add_entry es x = elim x.name [
    | err _ ↦ es
    | ok n ↦ if str_eq n "" then es else elim (first_named n es) [
      | some _ ↦ es
      | none ↦ snoc es (record { name = n; tool = x.tool; risk_level = x.risk })
    ]
  ]

  unfoldable pub add_entries : List Entry → List Registration → List Entry
  add_entries es [] = es
  add_entries es (x ∷ xs) = add_entries (add_entry es x) xs

  record Agrees (r : Registry InvokableTool) (es : List Entry) : Type 0 where
    in_order : r.order ≡ map (λ e. e.name) es
    by_name : (n : String) → lookup n r.tools ≡ first_named n es
    first : All (λ e. first_named e.name es ≡ some e) es

  first_named-snoc :
      (n : String) (es : List Entry) (e : Entry)
      → first_named n (snoc es e) ≡ elim (first_named n es) [
        | some f ↦ some f
        | none ↦ if str_eq e.name n then some e else none
      ]
  unfolding first_named
  first_named-snoc n [] e = refl
  first_named-snoc n (f ∷ fs) e = ground (arith, first_named-snoc n fs e)

  map-snoc :
      (es : List Entry) (e : Entry)
      → map (λ x. x.name) (snoc es e) ≡ snoc (map (λ x. x.name) es) e.name
  map-snoc [] e = refl
  map-snoc (f ∷ fs) e = ap (λ l. f.name ∷ l) (map-snoc fs e)

  still_first :
      (es fs : List Entry) (e : Entry)
      → All (λ f. first_named f.name es ≡ some f) fs
      → All (λ f. first_named f.name (snoc es e) ≡ some f) fs
  still_first es [] e h = tt
  still_first es (f ∷ fs) e h =
      (ground (arith, first_named-snoc f.name es e, h.0), still_first es fs e h.1)

  added-Agrees :
      (r : Registry InvokableTool) (es : List Entry) (e : Entry)
      → Agrees r es
      → first_named e.name es ≡ none
      → Agrees (record { tools = insert e.name e r.tools; order = snoc r.order e.name }) (snoc es e)
  added-Agrees r es e h new = record {
    in_order = ap (λ l. snoc l e.name) h.in_order ∙ sym (map-snoc es e);
    by_name = λ n. ground (
      arith,
      lookup-insert e.name n e r.tools,
      h.by_name n,
      first_named-snoc n es e,
      new,
      eq_iff e.name n,
    );
    first =
        All-append (λ f. first_named f.name (snoc es e) ≡ some f) es (e ∷ [])
          (still_first es es e h.first)
          (ground (arith, first_named-snoc e.name es e, new, str_eq_self e.name), tt);
  }

  module _ (quoted : String → String) where
    abbrev registered : Registry InvokableTool → Registration → Registry InvokableTool
    registered r x = (register InvokableTool quoted r x.name x.tool x.risk).1

    unfoldable pub register_all :
        Registry InvokableTool → List Registration → Registry InvokableTool
    register_all r [] = r
    register_all r (x ∷ xs) = register_all (registered r x) xs

    named-Agrees :
        (r : Registry InvokableTool) (es : List Entry) (name : Result String) (t : InvokableTool)
        (risk : RiskLevel)
        → Agrees r es
        → Agrees
            (register InvokableTool quoted r name t risk).1
            (add_entry es (record { name = name; tool = t; risk = risk }))
    unfolding register add_entry
    named-Agrees r es (err e) t risk h = h
    named-Agrees r es (ok n) t risk h = elim (Bool-cases (str_eq n "")) [
      | inl empty ↦ simp (empty) h
      | inr not_empty ↦ elim (Option-cases (first_named n es)) [
        | inl new ↦ simp (not_empty, h.by_name n, new) (added-Agrees r es _ h new)
        | inr (e, taken) ↦ simp (not_empty, h.by_name n, taken) h
      ]
    ]

    register_all-Agrees :
        (r : Registry InvokableTool) (es : List Entry) (xs : List Registration)
        → Agrees r es
        → Agrees (register_all r xs) (add_entries es xs)
    unfolding register_all add_entries
    register_all-Agrees r es [] h = h
    register_all-Agrees r es (x ∷ xs) h =
        register_all-Agrees (registered r x) (add_entry es x) xs
          (named-Agrees r es x.name x.tool x.risk h)

    tools_of-entries :
        (zero_tool : Entry) (d : Dict Entry) (es : List Entry)
        → All (λ e. lookup e.name d ≡ some e) es
        → tools_of InvokableTool zero_tool d (map (λ e. e.name) es) ≡ es
    unfolding tools_of
    tools_of-entries zero_tool d [] h = refl
    tools_of-entries zero_tool d (e ∷ es) h =
        rw (tools_of, h.0) (ap (λ l. e ∷ l) (tools_of-entries zero_tool d es h.1))

    held :
        (r : Registry InvokableTool) (es fs : List Entry)
        → Agrees r es
        → All (λ e. first_named e.name es ≡ some e) fs
        → All (λ e. lookup e.name r.tools ≡ some e) fs
    held r es [] h a = tt
    held r es (f ∷ fs) h a = (h.by_name f.name ∙ a.0, held r es fs h a.1)

    empty-Agrees : Agrees (new_registry InvokableTool) []
    unfolding lookup first_named
    empty-Agrees = record { in_order = refl; by_name = λ n. refl; first = tt }

    -- After any registrations the registry holds exactly the first of each name that is not empty:
    -- All and Names give them in the order of registration, and Get finds each by its name.
    pub register_all_lem :
        (zero_tool : Entry) (xs : List Registration)
        → (all InvokableTool zero_tool (register_all (new_registry InvokableTool) xs)
            ≡ add_entries [] xs)
          × (names InvokableTool (register_all (new_registry InvokableTool) xs)
              ≡ map (λ e. e.name) (add_entries [] xs))
          × ((n : String)
              → get InvokableTool (register_all (new_registry InvokableTool) xs) n
                ≡ first_named n (add_entries [] xs))
    unfolding all names get
    register_all_lem zero_tool xs =
        let r = register_all (new_registry InvokableTool) xs in
        let es = add_entries [] xs in
        let h = register_all-Agrees (new_registry InvokableTool) [] xs empty-Agrees in
        (
          ap (tools_of InvokableTool zero_tool r.tools) h.in_order
              ∙ tools_of-entries zero_tool r.tools es (held r es es h h.first),
          h.in_order,
          h.by_name,
        )
