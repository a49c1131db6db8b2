-- ===== src/Json/Lookup.antt =====
-- The map of an object: the value that counts for a key.
use flashgate_mcp.Base.{
  ◌≡◌, refl, ◌∙◌, ap, Bool-cases, inl, inr, Option, none, some, [], ◌∷◌, String, str_eq, eq_iff,
  arith, if◌then◌else◌,
}
use flashgate_mcp.Json.{Json, Fields, end, field, Raw, RawMap, get, put, fill, to_map}

-- The first that is there.
unfoldable pub or_else : Option Json → Option Json → Option Json
or_else none b = b
or_else (some v) b = some v

-- The value of the last field of this name.
unfoldable pub last_value : String → Fields → Option Json
unfolding or_else
last_value key end = none
last_value key (field k n v rest) =
    or_else (last_value key rest) (if str_eq k key then some v else none)

abbrev pub value_of_raw : Option Raw → Option Json
value_of_raw none = none
value_of_raw (some raw) = some raw.value

get-put :
    (m : RawMap) (k : String) (raw : Raw) (key : String)
    → get (put m k raw) key ≡ (if str_eq k key then some raw else get m key)
unfolding get put
get-put [] k raw key = refl
get-put ((j, w) ∷ m) k raw key =
    let rest = get-put m k raw key in ground (arith, rest, eq_iff j k, eq_iff j key, eq_iff k key)

or_else_assoc : (a b c : Option Json) → or_else a (or_else b c) ≡ or_else (or_else a b) c
unfolding or_else
or_else_assoc none b c = refl
or_else_assoc (some v) b c = refl

get-put-value :
    (m : RawMap) (k : String) (raw : Raw) (key : String)
    → value_of_raw (get (put m k raw) key)
      ≡ or_else (if str_eq k key then some raw.value else none) (value_of_raw (get m key))
unfolding or_else
get-put-value m k raw key = elim (Bool-cases (str_eq k key)) [
  | inl e ↦ rw (get-put m k raw key, e) refl
  | inr e ↦ rw (get-put m k raw key, e) refl
]

or_else-none : (a : Option Json) → or_else a none ≡ a
unfolding or_else
or_else-none none = refl
or_else-none (some v) = refl

get-fill :
    (m : RawMap) (fs : Fields) (key : String)
    → value_of_raw (get (fill m fs) key) ≡ or_else (last_value key fs) (value_of_raw (get m key))
unfolding fill last_value or_else
get-fill m end key = refl
get-fill m (field k n v rest) key =
    let raw : Raw = record { size = n; value = v } in
    get-fill (put m k raw) rest key
    ∙ ap (or_else (last_value key rest)) (get-put-value m k raw key)
    ∙ or_else_assoc (last_value key rest) _ _

-- In the map of an object, a key has the value of the last field of this name.
pub get-to_map :
    (fs : Fields) (key : String) → value_of_raw (get (to_map fs) key) ≡ last_value key fs
unfolding to_map get
get-to_map fs key = get-fill [] fs key ∙ or_else-none (last_value key fs)
