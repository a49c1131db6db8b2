-- ===== src/Version.antt =====
-- internal/version/version.go: the identity of a build. Package time stands behind a record.
pub mod SemVer
mod Tests
use flashgate_mcp.Base.{
  ℕ, Bool, true, false, not, Option, none, some, List, [], ◌∷◌, ◌++◌, ltb, if◌then◌else◌, String,
  Text, codes, text_eq, trim,
}
use flashgate_mcp.Base.Result.{Result, ok, err}
use flashgate_mcp.Config.{parse_bool}
use flashgate_mcp.Version.SemVer.{all_digits, numeral, windows_file_version}

abbrev pub product_name : Text
product_name = codes "FlashGate MCP"

abbrev pub binary_name : Text
binary_name = codes "flashgate-mcp"

abbrev copyright_holder : Text
copyright_holder = codes "Thomas Weidner"

abbrev default_version : Text
default_version = codes "0.0.0-dev"

abbrev default_file_version : Text
default_file_version = codes "0.0.0.0"

abbrev unknown_value : Text
unknown_value = codes "unknown"

abbrev max_source_date_epoch : ℕ
max_source_date_epoch = 253402300799

-- The variables that the linker sets, the constants of package runtime, and the settings that
-- `debug.ReadBuildInfo` finds.
pub record Build : Type 0 where
  pub version : Text
  pub file_version : Text
  pub commit : Text
  pub date : Text
  pub modified : Text
  pub build_manifest : Text
  pub go_version : Text
  pub goos : Text
  pub goarch : Text
  pub settings : Option (List (Text × Text))

-- `time.Parse(time.RFC3339, …)` with the text of the time in UTC, or with its year, and the text
-- of the time of an epoch.
pub record Clock : Type 0 where
  pub canonical : Text → Option Text
  pub year : Text → Option Text
  pub from_epoch : ℕ → Text

pub record Info : Type 0 where
  pub product_name : Text
  pub binary_name : Text
  pub version : Text
  pub file_version : Text
  pub commit : Text
  pub source_time : Text
  pub modified : Bool
  pub go_version : Text
  pub goos : Text
  pub goarch : Text
  pub public_arch : Text
  pub copyright : Text
  pub build_manifest : Text

unfoldable pub value_or_default : Text → Text → Text
value_or_default value fallback =
    let trimmed = trim value in if text_eq trimmed [] then fallback else trimmed

-- `parseBool`: a value, if there is one.
parse_flag : Text → Option Bool
parse_flag value =
    let trimmed = trim value in if text_eq trimmed [] then none else parse_bool trimmed

-- `PublicArchitecture`
unfoldable pub public_architecture : Text → Text
public_architecture goarch = if text_eq goarch (codes "amd64") then codes "x64" else goarch

-- The last of several settings of one name counts, and a missing one is empty.
setting : Text → List (Text × Text) → Text → Text
setting old [] key = old
setting old ((k, v) ∷ m) key = setting (if text_eq k key then v else old) m key

pub data EpochError : Type 0 where
  epoch_empty epoch_not_decimal epoch_out_of_range : EpochError

module _ (clock : Clock) where
  unfoldable pub canonical_time : Text → Text
  canonical_time value =
      if text_eq value unknown_value
      then unknown_value
      else elim (clock.canonical value) [ none ↦ unknown_value | some t ↦ t ]

  -- `CopyrightText`
  unfoldable pub copyright_text : Text → Text
  copyright_text canonical_source_time = elim (clock.year canonical_source_time) [
    | none ↦ codes "Copyright © " ++ copyright_holder
    | some y ↦ codes "Copyright © " ++ y ++ b' ' ∷ copyright_holder
  ]

  -- `SourceTimeFromEpoch`; a number that ParseInt refuses is above the greatest epoch.
  unfoldable pub source_time_from_epoch : Text → Result EpochError Text
  unfolding all_digits numeral
  source_time_from_epoch value =
      if text_eq value []
      then err epoch_empty
      else if not (all_digits value)
      then err epoch_not_decimal
      else if ltb max_source_date_epoch (numeral 0 value)
      then err epoch_out_of_range
      else ok (clock.from_epoch (numeral 0 value))

  revision_commit : Info → List (Text × Text) → Text
  unfolding setting value_or_default
  revision_commit info settings =
      if text_eq info.commit unknown_value
      then value_or_default (setting [] settings (codes "vcs.revision")) unknown_value
      else info.commit

  revision_time : Info → List (Text × Text) → Text
  unfolding setting value_or_default canonical_time
  revision_time info settings =
      if text_eq info.source_time unknown_value
      then canonical_time (value_or_default (setting [] settings (codes "vcs.time")) unknown_value)
      else info.source_time

  -- An explicit flag of the linker is not overruled.
  revision_modified : Text → Bool → List (Text × Text) → Bool
  unfolding setting parse_flag
  revision_modified modified old settings = elim (parse_flag modified) [
    | some b ↦ old
    | none ↦ elim (parse_flag (setting [] settings (codes "vcs.modified"))) [
      | none ↦ old
      | some b ↦ b
    ]
  ]

  apply_vcs_fallback : Text → Option (List (Text × Text)) → Info → Info
  unfolding revision_commit revision_time revision_modified
  apply_vcs_fallback modified none info = info
  apply_vcs_fallback modified (some settings) info = record info {
    commit = revision_commit info settings;
    source_time = revision_time info settings;
    modified = revision_modified modified info.modified settings;
  }

  with_file_version : Info → Info
  unfolding windows_file_version
  with_file_version info =
      if text_eq info.file_version []
      then record info {
        file_version = elim (windows_file_version info.version) [
          | err e ↦ default_file_version
          | ok mapped ↦ mapped
        ];
      }
      else info

  with_modified : Text → Info → Info
  unfolding parse_flag
  with_modified modified info = elim (parse_flag modified) [
    | none ↦ info
    | some b ↦ record info { modified = b }
  ]

  with_copyright : Info → Info
  unfolding copyright_text
  with_copyright info = record info { copyright = copyright_text info.source_time }

  -- The fields that need no build settings.
  initial_info : Build → Info
  unfolding value_or_default canonical_time public_architecture
  initial_info b = record {
    product_name = product_name;
    binary_name = binary_name;
    version = value_or_default b.version default_version;
    file_version = trim b.file_version;
    commit = value_or_default b.commit unknown_value;
    source_time = canonical_time (value_or_default b.date unknown_value);
    modified = false;
    go_version = b.go_version;
    goos = b.goos;
    goarch = b.goarch;
    public_arch = public_architecture b.goarch;
    copyright = [];
    build_manifest = b.build_manifest;
  }

  -- `Get`
  unfoldable pub get : Build → Info
  unfolding initial_info apply_vcs_fallback with_file_version with_modified with_copyright
  get b = with_copyright (
      with_modified b.modified
        (with_file_version (apply_vcs_fallback b.modified b.settings (initial_info b))))

-- `Info.String`
unfoldable pub version_string : Info → Text
version_string i = i.binary_name ++ b' ' ∷ i.version

flag_text : Bool → Text
flag_text true = codes "true"
flag_text false = codes "false"

line : String → Text → Text
line label value = codes label ++ value ++ b'\n' ∷ []

-- `Info.VerboseString`
unfoldable pub verbose_string : Info → Text
unfolding flag_text line
verbose_string i =
    line "Product:      " i.product_name
    ++ line "Version:      " i.version
    ++ line "File version: " i.file_version
    ++ line "Commit:       " i.commit
    ++ line "Source time:  " i.source_time
    ++ line "Modified:     " (flag_text i.modified)
    ++ line "Go version:   " i.go_version
    ++ line "Platform:     " (i.goos ++ b'/' ∷ i.public_arch)
    ++ codes "Go target:    "
    ++ i.goos
    ++ b'/' ∷ i.goarch
