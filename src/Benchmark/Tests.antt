-- ===== src/Benchmark/Tests.antt =====
-- Examples for measurements.
use flashgate_mcp.Base.{ℕ, ◌≡◌, refl, some, List, [], ◌∷◌, arith}
use flashgate_mcp.Base.{Bool, true, false, Option}
use flashgate_mcp.Json.{Json, bool, object, end, field}
use flashgate_mcp.Benchmark.StrictJson.{
  Shape, boolean, structure, no_member, member, decode_strict_json, validate_json_shape,
}
use flashgate_mcp.Benchmark.StrictJson.Distinctness.{Distinct, decode_strict_json-Distinct}
use flashgate_mcp.Benchmark.Statistics.{MetricSummary, summarize}
use flashgate_mcp.Benchmark.Statistics.Order.{InOrder, summarize-InOrder}

abbrev samples : List ℕ
samples = 3 ∷ 5 ∷ 8 ∷ []

abbrev keep : List ℕ → List ℕ
keep xs = xs

summarize-InOrder_example : (m : MetricSummary) × (summarize keep samples ≡ some m) × InOrder 3 m
summarize-InOrder_example =
    summarize-InOrder keep samples ((omega arith, (omega arith, tt)), ((omega arith, tt), (tt, tt)))
      refl

abbrev on_value : Json
on_value = object (field "on" 4 (bool true) end)

abbrev decode_on : List ℕ → Option Json
decode_on bytes = some on_value

abbrev typed_on : Json → Option Bool
typed_on v = some true

abbrev on_shape : Shape
on_shape = structure (member "on" false boolean no_member)

decode_strict_json-Distinct_example :
    (v : Json) × (decode_on [] ≡ some v)
    × Distinct v
    × (validate_json_shape on_shape v ≡ true)
    × (typed_on v ≡ some true)
unfolding decode_strict_json
decode_strict_json-Distinct_example =
    decode_strict_json-Distinct decode_on typed_on on_shape [] true refl
