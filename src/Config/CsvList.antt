-- ===== src/Config/CsvList.antt =====
-- CSVList of config.go: a list written in YAML either as a list or as one text with commas.
use Prim.Native.Char.{Char, code}
use go_on_call_agent.Prelude.{
  String, false, List, [], ◌∷◌, ◌≡◌, ◌≢◌, refl, ◌∙◌, ap, All, str_eq, str_eq-of_ne, if◌then◌else◌,
}
use go_on_call_agent.Errors.{Result, ok, err}
use go_on_call_agent.Text.{split, join, trim_space, trim_left, trim_right}
use go_on_call_agent.Text.Parts.{contains, split-join}

abbrev pub comma : Char
comma = ","

-- The loop over the parts of the text.
unfoldable pub keep_items : List String → List String
keep_items [] = []
keep_items (p ∷ ps) =
    let rest = keep_items ps in
    let item = trim_space p in if str_eq item "" then rest else item ∷ rest

-- UnmarshalYAML, of what value.Decode gives for a text and for a list of texts.
unfoldable pub unmarshal : Result String → Result (List String) → Result (List String)
unmarshal (ok raw) items = ok (keep_items (split (code comma) raw))
unmarshal (err _) items = items

-- An item that the text form can carry.
pub record IsItem (s : String) : Type 0 where
  pub no_comma : contains (code comma) s ≡ false
  pub trimmed : trim_space s ≡ s
  pub not_empty : s ≢ ""

keep_one : (p : String) (ps : List String) → IsItem p → keep_items (p ∷ ps) ≡ p ∷ keep_items ps
unfolding keep_items
keep_one p ps h = rw (h.trimmed, str_eq-of_ne p "" h.not_empty)

keep_items_id : (ps : List String) → All IsItem ps → keep_items ps ≡ ps
unfolding keep_items
keep_items_id [] h = refl
keep_items_id (p ∷ ps) h = keep_one p ps h.0 ∙ ap (λ l. p ∷ l) (keep_items_id ps h.1)

no_commas : (ps : List String) → All IsItem ps → All (λ q. contains (code comma) q ≡ false) ps
no_commas [] h = tt
no_commas (p ∷ ps) h = (h.0.no_comma, no_commas ps h.1)

-- A list of items that are trimmed, not empty and without a comma is read back from its text with
-- commas, also the empty list.
pub unmarshal-join :
    (ps : List String) (items : Result (List String))
    → All IsItem ps
    → unmarshal (ok (join comma ps)) items ≡ ok ps
unfolding unmarshal join split keep_items trim_space trim_left trim_right
unmarshal-join [] items h = refl
unmarshal-join (p ∷ ps) items h =
    ap ok (ap keep_items (split-join comma p ps (no_commas (p ∷ ps) h)) ∙ keep_items_id (p ∷ ps) h)
