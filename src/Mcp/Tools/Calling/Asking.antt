-- ===== src/Mcp/Tools/Calling/Asking.antt =====
-- validateCallParams of internal/mcp/tools: what a call asks for, and that the code finds it.
use flashgate_mcp.Base.{
  ◌≡◌, ◌↔◌, refl, sym, ap, subst, ◌∙◌, ◌⊎◌, inl, inr, true, false, not, Option, none, some, String,
  codes, is_blank, if◌then◌else◌, arith,
}
use flashgate_mcp.Base.Result.{ok}
use flashgate_mcp.Json.{
  Json, null, bool, number, string, array, object, Fields, end, Raw, RawMap, get, to_map, as_string,
  is_object, is_null,
}
use flashgate_mcp.Json.Lookup.{last_value, value_of_raw, get-to_map}
use flashgate_mcp.Mcp.Tools.Calling.{
  CallParams, string_field, call_arguments, with_name, call_fields, call_object,
  validate_call_params,
}

-- The arguments of a call: an object, which is empty where it is left out or null.
abbrev pub Given : Option Json → Json → Type 0
Given none a = a ≡ object end
Given (some v) a = (v ≡ null) × (a ≡ object end) ⊎ (is_object v ≡ true) × (a ≡ v)

-- The params are an object, whose last fields "name" and "arguments" are those of the call.
pub record Asks (params : Option Raw) (p : CallParams) : Type 0 where
  pub raw : Raw
  pub fields : Fields
  pub present : params ≡ some raw
  pub is_fields : raw.value ≡ object fields
  pub named : last_value "name" fields ≡ some (string p.name)
  pub not_blank : is_blank (codes p.name) ≡ false
  pub arguments : Given (last_value "arguments" fields) p.arguments

text_of : Option Json → Option String
unfolding as_string
text_of none = none
text_of (some v) = elim (as_string v) [
  | none ↦ none
  | some value ↦ if is_blank (codes value) then none else some value
]

string_field-text_of :
    (m : RawMap) (key : String) → string_field m key ≡ text_of (value_of_raw (get m key))
unfolding string_field text_of
string_field-text_of m key = by_raw (get m key)
  where
    by_raw :
        (o : Option Raw)
        → elim o [
          | none ↦ none
          | some raw ↦ elim (as_string raw.value) [
            | none ↦ none
            | some value ↦ if is_blank (codes value) then none else some value
          ]
        ]
          ≡ text_of (value_of_raw o)
    by_raw none = refl
    by_raw (some raw) = refl

text_of-string :
    (o : Option Json) (name : String)
    → (text_of o ≡ some name) ↔ (o ≡ some (string name)) × (is_blank (codes name) ≡ false)
unfolding text_of as_string is_blank
text_of-string none name = (λ h. absurd (cc), λ (e, h). absurd (cc))
text_of-string (some (string s)) name = (λ h. ground (arith, h), λ (e, h). ground (arith, e, h))
text_of-string (some null) name = (λ h. absurd (cc), λ (e, h). absurd (cc))
text_of-string (some (bool b)) name = (λ h. absurd (cc), λ (e, h). absurd (cc))
text_of-string (some (number n)) name = (λ h. absurd (cc), λ (e, h). absurd (cc))
text_of-string (some (array vs)) name = (λ h. absurd (cc), λ (e, h). absurd (cc))
text_of-string (some (object fs)) name = (λ h. absurd (cc), λ (e, h). absurd (cc))

call_arguments-Given :
    (o : Option Raw) (a : Json) → (call_arguments o ≡ some a) ↔ Given (value_of_raw o) a
unfolding call_arguments is_null is_object
call_arguments-Given none a = (λ e. ground (arith, e), λ e. ground (arith, e))
call_arguments-Given (some raw) a = by_value raw.value
  where
    by_value :
        (v : Json)
        → ((if is_null v then some (object end) else if not (is_object v) then none else some v)
            ≡ some a)
          ↔ Given (some v) a
    by_value null = (λ e. inl (refl, ground (arith, e)), λ h. ground (arith, h))
    by_value (object fs) = (λ e. inr (refl, ground (arith, e)), λ h. ground (arith, h))
    by_value (bool b) = (λ e. absurd (cc), λ h. ground (arith, h))
    by_value (number n) = (λ e. absurd (cc), λ h. ground (arith, h))
    by_value (string b) = (λ e. absurd (cc), λ h. ground (arith, h))
    by_value (array b) = (λ e. absurd (cc), λ h. ground (arith, h))

with_name-Given :
    (name : String) (o : Option Raw) (p : CallParams)
    → (with_name name (call_arguments o) ≡ ok p)
      ↔ (name ≡ p.name) × Given (value_of_raw o) p.arguments
unfolding with_name
with_name-Given name o p =
    (found (call_arguments o) refl, λ (n, g). rw ((call_arguments-Given o p.arguments).1 g, n) refl)
  where
    found :
        (a : Option Json)
        → call_arguments o ≡ a
        → with_name name a ≡ ok p
        → (name ≡ p.name) × Given (value_of_raw o) p.arguments
    found none e h = absurd (cc)
    found (some a) e h =
        let made : CallParams = record { name = name; arguments = a } in
        let same : made ≡ p = cc in
        (
          ap (λ (q : CallParams). q.name) same,
          (call_arguments-Given o p.arguments).0
              (e ∙ ap (λ (q : CallParams). some q.arguments) same),
        )

-- The name and the arguments among the fields of the params.
abbrev AmongFields : Fields → CallParams → Type 0
AmongFields fs p =
    (last_value "name" fs ≡ some (string p.name))
    × (is_blank (codes p.name) ≡ false)
    × Given (last_value "arguments" fs) p.arguments

call_object-AmongFields :
    (fs : Fields) (p : CallParams) → (call_object (object fs) ≡ ok p) ↔ AmongFields fs p
unfolding call_object call_fields
call_object-AmongFields fs p = (found (string_field (to_map fs) "name") refl, accepted)
  where
    name_found : string_field (to_map fs) "name" ≡ text_of (last_value "name" fs)
    name_found = string_field-text_of (to_map fs) "name" ∙ ap text_of (get-to_map fs "name")

    found :
        (o : Option String)
        → string_field (to_map fs) "name" ≡ o
        → call_fields (to_map fs) o ≡ ok p
        → AmongFields fs p
    found none e h = absurd (cc)
    found (some name) e h =
        let (same, given) = (with_name-Given name (get (to_map fs) "arguments") p).0 h in
        let (named, not_blank) =
          (text_of-string (last_value "name" fs) name).0 (sym name_found ∙ e) in
        (
          named ∙ ap (λ n. some (string n)) same,
          subst (λ n. is_blank (codes n) ≡ false) same not_blank,
          subst (λ o. Given o p.arguments) (get-to_map fs "arguments") given,
        )

    accepted : AmongFields fs p → call_object (object fs) ≡ ok p
    accepted (named, not_blank, given) =
        let name : string_field (to_map fs) "name" ≡ some p.name =
          name_found ∙ (text_of-string (last_value "name" fs) p.name).1 (named, not_blank) in
        ap (call_fields (to_map fs)) name
        ∙ (with_name-Given p.name (get (to_map fs) "arguments") p).1
            (refl, subst (λ o. Given o p.arguments) (sym (get-to_map fs "arguments")) given)

-- What validateCallParams accepts is what the params ask for, and it accepts all that do.
pub validate_call_params-Asks :
    (params : Option Raw) (p : CallParams) → (validate_call_params params ≡ ok p) ↔ Asks params p
unfolding validate_call_params
validate_call_params-Asks params p = (found params refl, accepted)
  where
    by_value :
        (raw : Raw) (v : Json)
        → params ≡ some raw
        → raw.value ≡ v
        → call_object v ≡ ok p
        → Asks params p
    by_value raw (object fs) e is h =
        let (named, not_blank, given) = (call_object-AmongFields fs p).0 h in
        record {
          raw = raw;
          fields = fs;
          present = e;
          is_fields = is;
          named = named;
          not_blank = not_blank;
          arguments = given;
        }
    by_value raw null e is h = absurd (cc)
    by_value raw (bool b) e is h = absurd (cc)
    by_value raw (number n) e is h = absurd (cc)
    by_value raw (string s) e is h = absurd (cc)
    by_value raw (array vs) e is h = absurd (cc)

    found : (o : Option Raw) → params ≡ o → validate_call_params o ≡ ok p → Asks params p
    found none e h = absurd (cc)
    found (some raw) e h = by_value raw raw.value e refl h

    accepted : Asks params p → validate_call_params params ≡ ok p
    accepted a =
        ap validate_call_params a.present
        ∙ ap call_object a.is_fields
        ∙ (call_object-AmongFields a.fields p).1 (a.named, a.not_blank, a.arguments)
