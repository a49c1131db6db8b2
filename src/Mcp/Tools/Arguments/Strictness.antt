-- ===== src/Mcp/Tools/Arguments/Strictness.antt =====
-- decodeStrictArguments of internal/mcp/tools: the arguments that it lets through.
use flashgate_mcp.Base.{
  ◌≡◌, ◌≢◌, ◌∙◌, refl, str_eq, ◌⊎◌, inl, inr, Bool, true, false, ◌||◌, Bool-cases, Option, none,
  some, Option-cases, List, [], ◌∷◌, String, arith,
}
use flashgate_mcp.Json.{
  Json, null, bool, number, string, array, object, Fields, end, field, RawMap, get, to_map, is_null,
}
use flashgate_mcp.Json.Lookup.{last_value, value_of_raw, get-to_map}
use flashgate_mcp.Mcp.Tools.Arguments.{
  is_field, has_null, decode_fields, decode_strict, set_path, set_list, set_read, set_write,
  set_delete, set_transfer,
}

null_or_other : (v : Json) → (is_null v ≡ true) ⊎ (v ≢ null)
unfolding is_null
null_or_other null = inl refl
null_or_other (bool b) = inr (λ e. absurd (cc))
null_or_other (number n) = inr (λ e. absurd (cc))
null_or_other (string s) = inr (λ e. absurd (cc))
null_or_other (array vs) = inr (λ e. absurd (cc))
null_or_other (object fs) = inr (λ e. absurd (cc))

has_null-get :
    (m : RawMap) (key : String) → has_null m ≡ false → value_of_raw (get m key) ≢ some null
unfolding has_null get
has_null-get [] key h e = absurd (cc)
has_null-get ((k, raw) ∷ m) key h e = elim (null_or_other raw.value) [
  | inl is ↦ absurd (ground (arith, is, h))
  | inr other ↦ elim (Bool-cases (str_eq k key)) [
    | inl same ↦ other (ground (arith, same, e))
    | inr differs ↦ has_null-get m key (ground (arith, h)) (ground (arith, differs, e))
  ]
]

-- Whether a key is taken for one of these fields.
unfoldable pub is_known : List String → String → Bool
is_known [] key = false
is_known (name ∷ names) key = is_field key name || is_known names key

-- Every key of an object is known.
abbrev pub AllKnown : List String → Fields → Type 0
AllKnown names end = Unit
AllKnown names (field k n v rest) = (is_known names k ≡ true) × AllKnown names rest

-- A setter that takes no other fields than these.
abbrev pub Takes : {A : Type 0} → List String → (String → Json → A → Option A) → Type 0
Takes {A} names set =
    (k : String) (v : Json) (a : A) → (set k v a ≡ none) ⊎ (is_known names k ≡ true)

module _ {A : Type 0} (names : List String) (set : String → Json → A → Option A)
    (ht : Takes names set) where
  decode_fields-AllKnown :
      (fs : Fields) (a b : A) → decode_fields set fs a ≡ some b → AllKnown names fs
  unfolding decode_fields
  decode_fields-AllKnown end a b h = tt
  decode_fields-AllKnown (field k n v rest) a b h = elim (Option-cases (set k v a)) [
    | inl e ↦ absurd (ground (arith, e, h))
    | inr (c, e) ↦ elim (ht k v a) [
      | inl e' ↦ absurd (ground (arith, e, e'))
      | inr known ↦ (known, decode_fields-AllKnown rest c b (ground (arith, e, h)))
    ]
  ]

  -- Where the fields of a struct have certain names and no others, arguments that the strict
  -- decoding accepts are an object in which the last value of no key is null, and each of whose
  -- keys is the name of a field up to the case of its letters.
  pub decode_strict-AllKnown :
      (a b : A) (v : Json)
      → decode_strict set a v ≡ some b
      → (fs : Fields) × (v ≡ object fs)
        × ((key : String) → last_value key fs ≢ some null)
        × AllKnown names fs
  unfolding decode_strict
  decode_strict-AllKnown a b (object fs) h = elim (Bool-cases (has_null (to_map fs))) [
    | inl e ↦ absurd (ground (arith, e, h))
    | inr e ↦ (
      fs,
      refl,
      λ key last. has_null-get (to_map fs) key e (get-to_map fs key ∙ last),
      decode_fields-AllKnown fs a b (ground (arith, e, h)),
    )
  ]
  decode_strict-AllKnown a b null h = absurd (ground (arith, h))
  decode_strict-AllKnown a b (bool c) h = absurd (ground (arith, h))
  decode_strict-AllKnown a b (number c) h = absurd (ground (arith, h))
  decode_strict-AllKnown a b (string c) h = absurd (ground (arith, h))
  decode_strict-AllKnown a b (array c) h = absurd (ground (arith, h))

pub set_path-Takes : Takes ("path" ∷ []) set_path
unfolding set_path is_known
set_path-Takes k v a = ground arith

pub set_list-Takes : Takes ("path" ∷ []) set_list
unfolding set_list is_known
set_list-Takes k v a = ground arith

pub set_read-Takes : Takes ("path" ∷ "maxBytes" ∷ []) set_read
unfolding set_read is_known
set_read-Takes k v a = ground arith

pub set_write-Takes : Takes ("path" ∷ "content" ∷ "overwrite" ∷ []) set_write
unfolding set_write is_known
set_write-Takes k v a = ground arith

pub set_delete-Takes : Takes ("path" ∷ "recursive" ∷ []) set_delete
unfolding set_delete is_known
set_delete-Takes k v a = ground arith

pub set_transfer-Takes : Takes ("source" ∷ "target" ∷ "overwrite" ∷ []) set_transfer
unfolding set_transfer is_known
set_transfer-Takes k v a = ground arith
