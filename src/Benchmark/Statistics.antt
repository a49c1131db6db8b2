-- ===== src/Benchmark/Statistics.antt =====
-- internal/benchmark/statistics.go. `sort.Slice` stands behind a function.
pub mod Order
use flashgate_mcp.Base.{
  ℕ, zero, suc, ◌+◌, ◌-◌, ◌*◌, ◌/◌, Option, none, some, List, [], ◌∷◌, ltb, length, if◌then◌else◌,
}

pub record MetricSummary : Type 0 where
  pub samples : ℕ
  pub min : ℕ
  pub p50 : ℕ
  pub p95 : ℕ
  pub max : ℕ

-- An element of a slice; `none` is a panic.
unfoldable pub element : List ℕ → ℕ → Option ℕ
element [] i = none
element (x ∷ xs) zero = some x
element (x ∷ xs) (suc i) = element xs i

abbrev pub percentile_index : ℕ → ℕ → ℕ
percentile_index n percent =
    let index = (n * percent + 99) / 100 in if ltb index 1 then 1 else index

unfoldable pub percentile : List ℕ → ℕ → Option ℕ
unfolding element
percentile sorted percent = element sorted (percentile_index (length sorted) percent - 1)

-- The summary of the elements that were found.
collect : ℕ → Option ℕ → Option ℕ → Option ℕ → Option ℕ → Option MetricSummary
collect n (some a) (some b) (some c) (some d) =
    some (record { samples = n; min = a; p50 = b; p95 = c; max = d })
collect n _ _ _ _ = none

summarize_sorted : List ℕ → Option MetricSummary
unfolding collect percentile element
summarize_sorted [] = some (record { samples = 0; min = 0; p50 = 0; p95 = 0; max = 0 })
summarize_sorted (x ∷ xs) =
    let sorted = x ∷ xs in
    collect (length sorted) (element sorted 0) (percentile sorted 50) (percentile sorted 95)
      (element sorted (length sorted - 1))

-- `summarize`
unfoldable pub summarize : (List ℕ → List ℕ) → List ℕ → Option MetricSummary
unfolding summarize_sorted
summarize sort values = summarize_sorted (sort values)
