-- ===== src/Mcp/Tools/Conformance.antt =====
-- What the output schemas of internal/mcp/tools demand of a result, as JSON Schema reads them, and
-- what a tool promises: its calls and its results.
use flashgate_mcp.Base.{
  ◌≡◌, Bool, true, false, not, ◌&&◌, ◌||◌, Option, none, some, List, [], ◌∷◌, String, str_eq,
  if◌then◌else◌,
}
use flashgate_mcp.Json.{
  Json, bool, number, string, array, object, Fields, end, field, every_item, every_field,
}
use flashgate_mcp.Errors.{Error}
use flashgate_mcp.Os.{Call}
use flashgate_mcp.Os.Rules.{Holds}
use flashgate_mcp.Mcp.Tools.Outcome.{
  Executed, done, refused, broken, map_filesystem_error, classify_filesystem_error, Category,
}
use flashgate_mcp.Mcp.Tools.Schema.{
  Schema, text, integer, boolean, constant, list_of, closed, one_of, described, Properties, no_more,
  property,
}
use flashgate_mcp.Mcp.Tools.Tool.{Tool}

has_field : String → Fields → Bool
has_field name end = false
has_field name (field k n v rest) = str_eq k name || has_field name rest

has_fields : List String → Fields → Bool
unfolding has_field
has_fields [] fs = true
has_fields (name ∷ names) fs = has_field name fs && has_fields names fs

is_given : {A : Type 0} → Option A → Bool
is_given none = false
is_given (some a) = true

unfoldable mutual
  unfolding has_fields is_given every_item every_field

  pub conforms : Schema → Json → Bool
  conforms text (string s) = true
  conforms integer (number n) = is_given n.integer
  conforms boolean (bool b) = true
  conforms (constant true) (bool b) = b
  conforms (constant false) (bool b) = not b
  conforms (list_of s) (array items) = every_item (λ v. conforms s v) items
  conforms (closed ps names) (object fs) =
      has_fields names fs && every_field (λ k v. property_conforms ps k v) fs
  conforms (one_of s t) v = conforms s v && not (conforms t v) || conforms t v && not (conforms s v)
  conforms (described s n d) v = conforms s v
  conforms _ _ = false

  -- A property that the schema does not name is not allowed.
  pub property_conforms : Properties → String → Json → Bool
  property_conforms no_more k v = false
  property_conforms (property name s ps) k v =
      if str_eq name k then conforms s v else property_conforms ps k v

-- A result that conforms to the schema, or an error.
abbrev pub Produces : Schema → Executed → Type 0
Produces s (done v) = conforms s v ≡ true
Produces s (refused c) = Unit
Produces s broken = Unit

pub map_filesystem_error-Produces : (s : Schema) (x : Error) → Produces s (map_filesystem_error x)
unfolding map_filesystem_error
map_filesystem_error-Produces s x = by_category (classify_filesystem_error x)
  where
    by_category :
        (c : Option Category)
        → Produces s (elim c [ none ↦ broken | some category ↦ refused category ])
    by_category none = tt
    by_category (some c) = tt

-- Whatever the arguments are and whatever the system replies, each call of the tool satisfies `P`
-- and each result conforms to the tool's output schema.
abbrev pub Behaves : (Call → Type 0) → Tool → Type 0
Behaves P t = (arguments : Json) → Holds P (Produces t.output_schema) (t.execute arguments)

pub Produces-if :
    (s : Schema) (b : Bool) (x y : Executed)
    → Produces s x
    → Produces s y
    → Produces s (if b then x else y)
Produces-if s true x y h k = h
Produces-if s false x y h k = k
