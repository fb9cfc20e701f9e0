-- ===== src/Text/Parts.antt =====
-- Splitting what was joined.
use Prim.Native.Char.{Char, code}
use go_on_call_agent.Prelude.{
  ℕ, String, Bool, false, List, [], ◌∷◌, ◌≡◌, refl, ◌∙◌, ap, arith, ◌==◌, ◌<>◌, ◌||◌, All,
}
use go_on_call_agent.Text.{split, join, cons_head}

-- Whether the character stands in the text.
unfoldable pub contains : ℕ → String → Bool
contains sep String.[] = false
contains sep (String.◌∷◌ c s) = code c == sep || contains sep s

append_empty : (s : String) → s <> "" ≡ s
append_empty String.[] = refl
append_empty (String.◌∷◌ c s) =
    (λ i. Prim.Native.String.append.cons c s "" i) ∙ ap (String.◌∷◌ c) (append_empty s)

split_plain : (sep : ℕ) (p : String) → contains sep p ≡ false → split sep p ≡ p ∷ []
unfolding split contains
split_plain sep String.[] h = refl
split_plain sep (String.◌∷◌ c s) h = ground (arith, h, split_plain sep s)

cons_append : (c : Char) (s t : String) → String.◌∷◌ c s <> t ≡ String.◌∷◌ c (s <> t)
cons_append c s t = λ i. Prim.Native.String.append.cons c s t i

nil_append : (t : String) → "" <> t ≡ t
nil_append t = λ i. Prim.Native.String.append.nil t i

split_sep :
    (sep : ℕ) (c : Char) (s : String) → code c ≡ sep → split sep (String.◌∷◌ c s) ≡ "" ∷ split sep s
unfolding split
split_sep sep c s h = ground (arith, h)

split_other :
    (sep : ℕ) (c : Char) (s : String)
    → (code c == sep) ≡ false
    → split sep (String.◌∷◌ c s) ≡ cons_head c (split sep s)
unfolding split
split_other sep c s h = ground (arith, h)

contains_head :
    (sep : ℕ) (c : Char) (s : String)
    → contains sep (String.◌∷◌ c s) ≡ false
    → (code c == sep) ≡ false
unfolding contains
contains_head sep c s h = ground (arith, h)

contains_tail :
    (sep : ℕ) (c : Char) (s : String)
    → contains sep (String.◌∷◌ c s) ≡ false
    → contains sep s ≡ false
unfolding contains
contains_tail sep c s h = ground (arith, h)

split_at_sep :
    (sep : ℕ) (c : Char) (p rest : String)
    → code c ≡ sep
    → contains sep p ≡ false
    → split sep (p <> String.◌∷◌ c rest) ≡ p ∷ split sep rest
split_at_sep sep c String.[] rest e h =
    ap (split sep) (nil_append (String.◌∷◌ c rest)) ∙ split_sep sep c rest e
split_at_sep sep c (String.◌∷◌ d p) rest e h =
    ap (split sep) (cons_append d p (String.◌∷◌ c rest))
    ∙ split_other sep d (p <> String.◌∷◌ c rest) (contains_head sep d p h)
    ∙ ap (cons_head d) (split_at_sep sep c p rest e (contains_tail sep d p h))

-- What was joined is split again.
pub split-join :
    (sep : Char) (p : String) (ps : List String)
    → All (λ q. contains (code sep) q ≡ false) (p ∷ ps)
    → split (code sep) (join sep (p ∷ ps)) ≡ p ∷ ps
unfolding join
split-join sep p [] h = split_plain (code sep) p h.0
split-join sep p (q ∷ ps) h =
    split_at_sep (code sep) sep p (join sep (q ∷ ps)) refl h.0
    ∙ ap (λ l. p ∷ l) (split-join sep q ps h.1)
