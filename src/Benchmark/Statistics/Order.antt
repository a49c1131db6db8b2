-- ===== src/Benchmark/Statistics/Order.antt =====
-- summarize of internal/benchmark: the order of what it returns.
use flashgate_mcp.Base.{
  ℕ, zero, suc, ◌-◌, ◌≤◌, ◌<◌, ◌≡◌, refl, subst, some, List, [], ◌∷◌, length, All, arith,
}
use flashgate_mcp.Benchmark.Statistics.{
  MetricSummary, element, percentile_index, percentile, collect, summarize_sorted, summarize,
}

-- Each element is at most all those behind it.
abbrev pub Sorted : List ℕ → Type 0
Sorted [] = Unit
Sorted (x ∷ xs) = All (λ y. x ≤ y) xs × Sorted xs

element-some : (xs : List ℕ) (i : ℕ) → i < length xs → (v : ℕ) × (element xs i ≡ some v)
unfolding element
element-some [] i h = absurd (omega arith)
element-some (x ∷ xs) zero h = (x, refl)
element-some (x ∷ xs) (suc i) h = element-some xs i (omega arith)

element-All : (P : ℕ → Type 0) (xs : List ℕ) (i v : ℕ) → All P xs → element xs i ≡ some v → P v
unfolding element
element-All P [] i v h e = absurd (cc)
element-All P (x ∷ xs) zero v h e = let same : x ≡ v = cc in subst P same h.0
element-All P (x ∷ xs) (suc i) v h e = element-All P xs i v h.1 e

element_mono :
    (xs : List ℕ) (i j v w : ℕ)
    → Sorted xs
    → i ≤ j
    → element xs i ≡ some v
    → element xs j ≡ some w
    → v ≤ w
unfolding element
element_mono [] i j v w h le e f = absurd (cc)
element_mono (x ∷ xs) zero zero v w h le e f = let same : v ≡ w = cc in omega (arith, same)
element_mono (x ∷ xs) zero (suc j) v w h le e f =
    let same : x ≡ v = cc in subst (λ z. z ≤ w) same (element-All (λ y. x ≤ y) xs j w h.0 f)
element_mono (x ∷ xs) (suc i) zero v w h le e f = absurd (omega arith)
element_mono (x ∷ xs) (suc i) (suc j) v w h le e f = element_mono xs i j v w h.1 (omega arith) e f

-- A summary of this many samples, in order.
pub record InOrder (n : ℕ) (m : MetricSummary) : Type 0 where
  pub samples_eq : m.samples ≡ n
  pub min_p50 : m.min ≤ m.p50
  pub p50_p95 : m.p50 ≤ m.p95
  pub p95_max : m.p95 ≤ m.max

percentile_index_bounds :
    (n : ℕ)
    → (percentile_index (suc n) 50 - 1 ≤ percentile_index (suc n) 95 - 1)
      × (percentile_index (suc n) 95 - 1 ≤ n)
percentile_index_bounds n = (ground arith, ground arith)

summarize_sorted-InOrder :
    (xs : List ℕ)
    → Sorted xs
    → (m : MetricSummary) × (summarize_sorted xs ≡ some m) × InOrder (length xs) m
unfolding summarize_sorted collect percentile
summarize_sorted-InOrder [] h = (
  _,
  refl,
  record { samples_eq = refl; min_p50 = omega arith; p50_p95 = omega arith; p95_max = omega arith },
)
summarize_sorted-InOrder (x ∷ xs) h =
    let n = length xs in
    let (low, high) = percentile_index_bounds n in
    let (a, ea) = element-some (x ∷ xs) 0 (omega arith) in
    let (b, eb) =
      element-some (x ∷ xs) (percentile_index (suc n) 50 - 1) (omega (arith, low, high)) in
    let (c, ec) = element-some (x ∷ xs) (percentile_index (suc n) 95 - 1) (omega (arith, high)) in
    let (d, ed) = element-some (x ∷ xs) (suc n - 1) (omega arith) in
    (
      record { samples = suc n; min = a; p50 = b; p95 = c; max = d },
      rw (ea, eb, ec, ed) refl,
      record {
        samples_eq = refl;
        min_p50 =
            element_mono (x ∷ xs) 0 (percentile_index (suc n) 50 - 1) a b h (omega arith) ea eb;
        p50_p95 = element_mono (x ∷ xs) _ _ b c h low eb ec;
        p95_max = element_mono (x ∷ xs) _ (suc n - 1) c d h (omega (arith, high)) ec ed;
      },
    )

-- Where sort.Slice sorts and keeps the number of the values, summarize does not panic, and in the
-- summary the number of samples is that of the values and the least, the two percentiles and the
-- greatest are in order.
pub summarize-InOrder :
    (sort : List ℕ → List ℕ) (values : List ℕ)
    → Sorted (sort values)
    → length (sort values) ≡ length values
    → (m : MetricSummary) × (summarize sort values ≡ some m) × InOrder (length values) m
unfolding summarize
summarize-InOrder sort values h n =
    let (m, e, o) = summarize_sorted-InOrder (sort values) h in (m, e, subst (λ k. InOrder k m) n o)
