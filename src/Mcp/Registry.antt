-- ===== src/Mcp/Registry.antt =====
-- internal/mcp/tools/registry.go: the tools by name, and the order in which they were registered.
pub mod Laws
pub mod Every
mod Tests
use flashgate_mcp.Base.{
  Bool, Option, none, some, List, [], ◌∷◌, ◌++◌, String, str_eq, if◌then◌else◌,
}

module _ {T : Type 0} where
  unfoldable pub find : List (String × T) → String → Option T
  find [] name = none
  find ((k, t) ∷ m) name = if str_eq k name then some t else find m name

  unfoldable pub assign : List (String × T) → String → T → List (String × T)
  assign [] name t = (name, t) ∷ []
  assign ((k, s) ∷ m) name t = if str_eq k name then (name, t) ∷ m else (k, s) ∷ assign m name t

-- Tools are any type; `name` is `Tool.Name`.
pub record Registry (T : Type 0) : Type 0 where
  pub tools : List (String × T)
  pub order : List String

module _ {T : Type 0} where
  unfoldable pub new_registry : Registry T
  new_registry = record { tools = []; order = [] }

  unfoldable pub order_with : List String → String → Option T → List String
  order_with order name none = order ++ name ∷ []
  order_with order name (some t) = order

  unfoldable pub register : Registry T → String → T → Registry T
  unfolding find assign order_with
  register r name tool = record {
    tools = assign r.tools name tool;
    order = order_with r.order name (find r.tools name);
  }

  unfoldable pub get : Registry T → String → Option T
  unfolding find
  get r name = find r.tools name

  keep_found : Option T → List T → List T
  keep_found none ts = ts
  keep_found (some t) ts = t ∷ ts

  listed : List (String × T) → List String → List T
  unfolding keep_found find
  listed tools [] = []
  listed tools (name ∷ names) = keep_found (find tools name) (listed tools names)

  unfoldable pub list : Registry T → List T
  unfolding listed
  list r = listed r.tools r.order
