-- ===== src/Mcp/Revision.antt =====
-- internal/mcp/revision and internal/mcp/discovery: the enabled revisions of the protocol, the
-- metadata of stateless requests, and the results that are completed for them.
use flashgate_mcp.Base.{
  Bool, true, false, not, ◌&&◌, ◌||◌, Option, none, some, List, [], ◌∷◌, ◌++◌, if◌then◌else◌,
  String, str_eq,
}
use flashgate_mcp.Base.Result.{Result, ok, err, ◌>>=◌}
use flashgate_mcp.Json.{
  Json, string, array, object, Items, nil, cons, end, field, Raw, RawMap, get, put, delete,
  from_map, as_map, as_string, is_object, count,
}
use flashgate_mcp.Protocol.{
  RpcError, invalid_params, internal_error, unsupported_protocol_version, protocol_version,
}

abbrev pub stateless : String
stateless = "2026-07-28"

abbrev pub version_key : String
version_key = "io.modelcontextprotocol/protocolVersion"

abbrev pub capabilities_key : String
capabilities_key = "io.modelcontextprotocol/clientCapabilities"

abbrev pub info_key : String
info_key = "io.modelcontextprotocol/clientInfo"

-- The enabled revisions.
pub record Policy : Type 0 where
  pub legacy_enabled : Bool
  pub stateless_enabled : Bool

abbrev pub no_revision : Policy
no_revision = record { legacy_enabled = false; stateless_enabled = false }

-- Any other version is passed over.
enable : String → Policy → Policy
enable version p = record {
  legacy_enabled = str_eq version protocol_version || p.legacy_enabled;
  stateless_enabled = str_eq version stateless || p.stateless_enabled;
}

pub new_policy : List String → Policy
unfolding enable
new_policy [] = no_revision
new_policy (v ∷ vs) = enable v (new_policy vs)

pub production_policy : Policy
production_policy = new_policy (protocol_version ∷ [])

unfoldable pub enabled : Policy → String → Bool
enabled p version =
    if str_eq version protocol_version
    then p.legacy_enabled
    else if str_eq version stateless
    then p.stateless_enabled
    else false

-- In the order of `sort.Strings`.
pub supported : Policy → List String
supported p =
    (if p.legacy_enabled then protocol_version ∷ [] else [])
    ++ (if p.stateless_enabled then stateless ∷ [] else [])

stateless_supported : Policy → List String
stateless_supported p = if enabled p stateless then stateless ∷ [] else []

pub record Request : Type 0 where
  pub version : String
  pub params : Option Raw
  pub stateless_envelope : Bool
  pub extensions : List String

abbrev pub legacy : Option Raw → Request
legacy params = record {
  version = protocol_version;
  params = params;
  stateless_envelope = false;
  extensions = [];
}

abbrev pub Inspected : Type 0 → Type 0
Inspected A = Result RpcError A

abbrev pub invalid_metadata : RpcError
invalid_metadata = record { code = invalid_params; message = "invalid params"; detail = none }

require : Bool → Inspected Unit
require b = if b then ok tt else err invalid_metadata

map_of : Option Raw → Inspected RawMap
map_of none = err invalid_metadata
map_of (some raw) = elim (as_map raw.value) [ none ↦ err invalid_metadata | some m ↦ ok m ]

is_some_object : Option Raw → Bool
is_some_object none = false
is_some_object (some raw) = is_object raw.value

-- `stringValue`: a string, and not null.
string_value : Option Raw → Option String
string_value none = none
string_value (some raw) = elim raw.value [ string s ↦ some s | _ ↦ none ]

non_empty : Option String → Bool
non_empty none = false
non_empty (some s) = not (str_eq s "")

nonempty_string : Option Raw → Bool
unfolding non_empty
nonempty_string none = false
nonempty_string (some raw) = non_empty (as_string raw.value)

all_objects : RawMap → Bool
all_objects [] = true
all_objects ((k, raw) ∷ m) = is_object raw.value && all_objects m

check_info : Option Raw → Inspected Unit
unfolding require map_of nonempty_string
check_info none = ok tt
check_info (some raw) = if not (is_object raw.value) then err invalid_metadata else do
  info ← map_of (some raw)
  require (nonempty_string (get info "name") && nonempty_string (get info "version"))

check_extensions : Option Raw → Inspected Unit
unfolding require map_of all_objects
check_extensions none = ok tt
check_extensions (some raw) =
    if not (is_object raw.value)
    then err invalid_metadata
    else do claimed ← map_of (some raw); require (all_objects claimed)

stateless_request : RawMap → String → Request
stateless_request fields version = record {
  version = version;
  params = some (record { size = 0; value = object (from_map (delete fields "_meta")) });
  stateless_envelope = true;
  extensions = [];
}

claimed_version : Option String → Inspected String
claimed_version none = err invalid_metadata
claimed_version (some v) = ok v

-- Metadata with one of the reserved keys.
inspect_reserved : RawMap → RawMap → Inspected Request
unfolding require map_of is_some_object string_value check_info check_extensions stateless_request
    claimed_version
inspect_reserved fields meta = do
  version ← claimed_version (string_value (get meta version_key))
  u ← require (is_some_object (get meta capabilities_key))
  v ← check_info (get meta info_key)
  capabilities ← map_of (get meta capabilities_key)
  w ← check_extensions (get capabilities "extensions")
  ok (stateless_request fields version)

is_given : Option Raw → Bool
is_given none = false
is_given (some raw) = true

has_reserved : RawMap → Bool
unfolding is_given
has_reserved meta =
    is_given (get meta version_key)
    || is_given (get meta capabilities_key)
    || is_given (get meta info_key)

inspect_meta : Option Raw → RawMap → Option Raw → Inspected Request
unfolding map_of has_reserved inspect_reserved
inspect_meta params fields none = ok (legacy params)
inspect_meta params fields (some raw) =
    if not (is_object raw.value) then err invalid_metadata else do
      meta ← map_of (some raw)
      if has_reserved meta then inspect_reserved fields meta else ok (legacy params)

inspect_fields : Option Raw → Option RawMap → Inspected Request
unfolding inspect_meta
inspect_fields params none = ok (legacy params)
inspect_fields params (some fields) = inspect_meta params fields (get fields "_meta")

pub inspect : Option Raw → Inspected Request
unfolding inspect_fields
inspect none = ok (legacy none)
inspect (some raw) =
    if not (is_object raw.value)
    then ok (legacy (some raw))
    else inspect_fields (some raw) (as_map raw.value)

strings : List String → Items
strings [] = nil
strings (s ∷ ss) = cons (string s) (strings ss)

-- The lengths of texts that the server makes itself are never tested.
abbrev pub made : Json → Raw
made value = record { size = 0; value = value }

pub unsupported : String → Policy → RpcError
unfolding strings stateless_supported
unsupported requested p = record {
  code = unsupported_protocol_version;
  message = "unsupported protocol version";
  detail = some (
      object (
        field "requested" 0 (string requested)
          (field "supported" 0 (array (strings (stateless_supported p))) end)));
}

-- `Cacheable`
cacheable : String → Bool
cacheable method =
    str_eq method "server/discover"
    || str_eq method "tools/list"
    || str_eq method "prompts/list"
    || str_eq method "resources/list"
    || str_eq method "resources/read"

server_meta : String → String → Json
server_meta name version = object (
    field "io.modelcontextprotocol/serverInfo" 0
      (object (field "name" 0 (string name) (field "version" 0 (string version) end))) end)

put_hints : String → RawMap → RawMap
unfolding cacheable
put_hints method result =
    if cacheable method
    then put (put result "ttlMs" (made (count 0))) "cacheScope" (made (string "private"))
    else result

completed : String → String → String → RawMap → Json
unfolding put_hints server_meta
completed method name version result = object (
    from_map (
      put_hints method (
        put (put result "resultType" (made (string "complete"))) "_meta"
          (made (server_meta name version)))))

-- Only an object can be completed.
pub complete : Json → String → String → String → Inspected Json
unfolding completed
complete value method name version = elim value [
  | object fs ↦ elim (as_map (object fs)) [
    | none ↦ err (record { code = internal_error; message = "internal error"; detail = none })
    | some result ↦ ok (completed method name version result)
  ]
  | _ ↦ err (record { code = internal_error; message = "internal error"; detail = none })
]

-- `discovery.Result`
pub discover_result : Policy → Json
unfolding strings stateless_supported
discover_result p = object (
    field "supportedVersions" 0 (array (strings (stateless_supported p)))
      (field "capabilities" 0 (object (field "tools" 0 (object end) end)) end))
