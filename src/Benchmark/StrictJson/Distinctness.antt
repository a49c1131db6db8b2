-- ===== src/Benchmark/StrictJson/Distinctness.antt =====
-- decodeStrictJSON of internal/benchmark: the keys of what it accepts.
use flashgate_mcp.Base.{
  ℕ, ◌≡◌, ◌≢◌, refl, Bool, true, false, not, ◌&&◌, Bool-cases, inl, inr, Option, none, some, List,
  [], ◌∷◌, String, eq_iff, All, arith,
}
use flashgate_mcp.Json.{
  Json, null, bool, number, string, array, object, Items, nil, cons, Fields, end, field,
}
use flashgate_mcp.Benchmark.StrictJson.{
  Shape, seen_before, unique_value, unique_items, unique_fields, validate_json_shape, strict_value,
  decode_strict_json,
}

-- No field of this name.
abbrev pub FreshIn : String → Fields → Type 0
FreshIn k end = Unit
FreshIn k (field j n v rest) = (j ≢ k) × FreshIn k rest

abbrev mutual
  -- No object has two fields of one name, at any depth.
  pub Distinct : Json → Type 0
  Distinct (object fs) = DistinctFields fs
  Distinct (array items) = DistinctItems items
  Distinct _ = Unit

  pub DistinctItems : Items → Type 0
  DistinctItems nil = Unit
  DistinctItems (cons v items) = Distinct v × DistinctItems items

  pub DistinctFields : Fields → Type 0
  DistinctFields end = Unit
  DistinctFields (field k n v rest) = FreshIn k rest × Distinct v × DistinctFields rest

and_true : (a b : Bool) → (a && b) ≡ true → (a ≡ true) × (b ≡ true)
and_true true b h = (refl, h)
and_true false b h = absurd (cc)

seen_before_fresh :
    (k : String) (seen : List String) (rest : Fields)
    → not (seen_before k seen) ≡ true
    → All (λ s. FreshIn s rest) seen
    → All (λ s. (k ≢ s) × FreshIn s rest) seen
unfolding seen_before
seen_before_fresh k [] rest h all = tt
seen_before_fresh k (s ∷ seen) rest h all = (
  (λ e. ground (arith, (eq_iff k s).1 e, h), all.0),
  seen_before_fresh k seen rest (ground (arith, h)) all.1,
)

fresh_at_end : (seen : List String) → All (λ s. FreshIn s end) seen
fresh_at_end [] = tt
fresh_at_end (s ∷ seen) = (tt, fresh_at_end seen)

mutual
  unfolding unique_value

  unique_value-Distinct : (v : Json) → unique_value v ≡ true → Distinct v
  unique_value-Distinct (object fs) h = (unique_fields-Distinct [] fs h).1
  unique_value-Distinct (array items) h = unique_items-Distinct items h
  unique_value-Distinct null h = tt
  unique_value-Distinct (bool b) h = tt
  unique_value-Distinct (number n) h = tt
  unique_value-Distinct (string s) h = tt

  unique_items-Distinct : (items : Items) → unique_items items ≡ true → DistinctItems items
  unique_items-Distinct nil h = tt
  unique_items-Distinct (cons v items) h =
      let (a, b) = and_true (unique_value v) (unique_items items) h in
      (unique_value-Distinct v a, unique_items-Distinct items b)

  unique_fields-Distinct :
      (seen : List String) (fs : Fields)
      → unique_fields seen fs ≡ true
      → All (λ s. FreshIn s fs) seen × DistinctFields fs
  unique_fields-Distinct seen end h = (fresh_at_end seen, tt)
  unique_fields-Distinct seen (field k n v rest) h =
      let (new, more) =
        and_true (not (seen_before k seen)) (unique_value v && unique_fields (k ∷ seen) rest) h in
      let (a, b) = and_true (unique_value v) (unique_fields (k ∷ seen) rest) more in
      let (fresh, distinct) = unique_fields-Distinct (k ∷ seen) rest b in
      (seen_before_fresh k seen rest new fresh.1, (fresh.0, unique_value-Distinct v a, distinct))

module _ {A : Type 0} (decode : List ℕ → Option Json) (typed : Json → Option A) where
  strict_value-Distinct :
      (s : Shape) (v : Json) (a : A)
      → strict_value decode typed s (some v) ≡ some a
      → Distinct v × (validate_json_shape s v ≡ true) × (typed v ≡ some a)
  unfolding strict_value
  strict_value-Distinct s v a h = elim (Bool-cases (unique_value v)) [
    | inr u ↦ absurd (ground (arith, u, h))
    | inl u ↦ elim (Bool-cases (validate_json_shape s v)) [
      | inr w ↦ absurd (ground (arith, u, w, h))
      | inl w ↦ (unique_value-Distinct v u, w, ground (arith, u, w, h))
    ]
  ]

  strict_none : (s : Shape) (a : A) → strict_value decode typed s none ≢ some a
  unfolding strict_value
  strict_none s a h = absurd (cc)

  -- What decodeStrictJSON accepts is a value of JSON in which no object, at any depth, has two
  -- fields of one name, and which has the shape of the destination; and the destination gets what
  -- encoding/json decodes from it.
  pub decode_strict_json-Distinct :
      (s : Shape) (bytes : List ℕ) (a : A)
      → decode_strict_json decode typed s bytes ≡ some a
      → (v : Json) × (decode bytes ≡ some v)
        × Distinct v
        × (validate_json_shape s v ≡ true)
        × (typed v ≡ some a)
  unfolding decode_strict_json
  decode_strict_json-Distinct s bytes a h = by_value (decode bytes) refl h
    where
      by_value :
          (o : Option Json)
          → decode bytes ≡ o
          → strict_value decode typed s o ≡ some a
          → (v : Json) × (decode bytes ≡ some v)
            × Distinct v
            × (validate_json_shape s v ≡ true)
            × (typed v ≡ some a)
      by_value none e k = absurd (strict_none s a k)
      by_value (some v) e k =
          let (distinct, shaped, read) = strict_value-Distinct s v a k in
          (v, e, distinct, shaped, read)
