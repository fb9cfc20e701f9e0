-- ===== src/Registry.antt =====
-- internal/tool/registry/registry.go: the tools by name and in their order of registration.
pub mod Order
use go_on_call_agent.Prelude.{
  String, Bool, true, false, Option, none, some, List, [], ◌∷◌, snoc, map, str_eq, ◌<>◌,
  if◌then◌else◌,
}
use go_on_call_agent.Errors.{Error, plain, wrap, Result, ok, err}
use go_on_call_agent.Dict.{Dict, lookup, insert}
use go_on_call_agent.Policy.{RiskLevel, other}

-- Over the type of the tools, each an eino InvokableTool.
module _ (InvokableTool : Type 0) where
  pub record RegisteredTool : Type 0 where
    pub name : String
    pub tool : InvokableTool
    pub risk_level : RiskLevel

  pub record Registry : Type 0 where
    pub tools : Dict RegisteredTool
    pub order : List String

  -- New
  abbrev pub new_registry : Registry
  new_registry = record { tools = []; order = [] }

  -- Register after Info: the name that it gives, or its error.
  unfoldable pub register :
      (String → String)
      → Registry
      → Result String
      → InvokableTool
      → RiskLevel
      → Option Error × Registry
  register quoted r (err e) t risk = (some (wrap "get tool info: " e ""), r)
  register quoted r (ok name) t risk =
      if str_eq name ""
      then (some (plain "tool name must not be empty"), r)
      else elim (lookup name r.tools) [
        | some _ ↦ (some (plain ("tool " <> quoted name <> " already registered")), r)
        | none ↦ (
          none,
          record {
            tools = insert name (record { name = name; tool = t; risk_level = risk }) r.tools;
            order = snoc r.order name;
          },
        )
      ]

  -- Get
  unfoldable pub get : Registry → String → Option RegisteredTool
  get r name = lookup name r.tools

  -- The loop of All over the names. A name that is not in the map would give the zero RegisteredTool,
  -- which `zero_tool` stands for.
  unfoldable pub tools_of : RegisteredTool → Dict RegisteredTool → List String → List RegisteredTool
  tools_of zero_tool d [] = []
  tools_of zero_tool d (name ∷ names) =
      let rest = tools_of zero_tool d names in
      elim (lookup name d) [ some t ↦ t ∷ rest | none ↦ zero_tool ∷ rest ]

  -- All
  unfoldable pub all : RegisteredTool → Registry → List RegisteredTool
  all zero_tool r = tools_of zero_tool r.tools r.order

  -- Names
  unfoldable pub names : Registry → List String
  names r = r.order

  -- EinoTools
  unfoldable pub eino_tools : RegisteredTool → Registry → List InvokableTool
  eino_tools zero_tool r = map (λ t. t.tool) (all zero_tool r)
