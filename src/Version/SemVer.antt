-- ===== src/Version/SemVer.antt =====
-- `parseSemVer` and `WindowsFileVersion` of internal/version/version.go.
pub mod Form
use flashgate_mcp.Base.{
  ℕ, zero, suc, ◌+◌, ◌-◌, ◌*◌, ◌/◌, ◌%◌, ◌^◌, Bool, true, false, not, ◌&&◌, ◌||◌, Option, none,
  some, List, [], ◌∷◌, ◌++◌, ◌==◌, ltb, leb, if◌then◌else◌, Text, codes, text_eq, trim,
}
use flashgate_mcp.Base.Result.{Result, ok, err, ◌>>=◌}

is_digit : ℕ → Bool
is_digit c = leb b'0' c && leb c b'9'

is_letter : ℕ → Bool
is_letter c = leb b'A' c && leb c b'Z' || leb b'a' c && leb c b'z'

unfoldable pub all_digits : Text → Bool
unfolding is_digit
all_digits [] = true
all_digits (c ∷ s) = is_digit c && all_digits s

identifier_characters : Text → Bool
unfolding is_digit is_letter
identifier_characters [] = true
identifier_characters (c ∷ s) = (is_digit c || is_letter c || c == b'-') && identifier_characters s

-- Longer than one digit, with a zero in front.
leading_zero : Text → Bool
leading_zero (c ∷ d ∷ s) = c == b'0'
leading_zero _ = false

-- `validCoreNumber`
unfoldable pub valid_core_number : Text → Bool
unfolding all_digits leading_zero text_eq
valid_core_number value = if text_eq value [] || leading_zero value then false else all_digits value

valid_identifier : Bool → Text → Bool
unfolding identifier_characters all_digits leading_zero text_eq
valid_identifier reject identifier =
    if text_eq identifier []
    then false
    else if not (identifier_characters identifier)
    then false
    else not (reject && all_digits identifier && leading_zero identifier)

-- `strings.Split(s, ".")`
push : ℕ → List Text → List Text
push c [] = (c ∷ []) ∷ []
push c (p ∷ ps) = (c ∷ p) ∷ ps

unfoldable pub split_dot : Text → List Text
unfolding push
split_dot [] = [] ∷ []
split_dot (c ∷ s) = let rest = split_dot s in if c == b'.' then [] ∷ rest else push c rest

all_valid : Bool → List Text → Bool
unfolding valid_identifier
all_valid reject [] = true
all_valid reject (s ∷ ss) = valid_identifier reject s && all_valid reject ss

-- `validIdentifierList`
unfoldable pub valid_identifier_list : Text → Bool → Bool
unfolding all_valid split_dot
valid_identifier_list value reject = all_valid reject (split_dot value)

-- `strings.Cut` at one character: what is before it, and what is behind it, if it is found.
unfoldable pub cut : ℕ → Text → Text × Option Text
cut sep [] = ([], none)
cut sep (c ∷ s) =
    let (before, after) = cut sep s in if c == sep then ([], some s) else (c ∷ before, after)

contains : ℕ → Text → Bool
contains d [] = false
contains d (c ∷ s) = c == d || contains d s

pub data SemVerError : Type 0 where
  invalid_version out_of_range : SemVerError

-- The number that digits stand for, behind those that stand for `n`.
unfoldable pub numeral : ℕ → Text → ℕ
numeral n [] = n
numeral n (c ∷ s) = numeral (n * 10 + (c - b'0')) s

core_number : Text → Result SemVerError ℕ
unfolding valid_core_number numeral
core_number part =
    if not (valid_core_number part)
    then err invalid_version
    else if leb (2 ^ 16) (numeral 0 part)
    then err out_of_range
    else ok (numeral 0 part)

unfoldable pub parse_core : List Text → Result SemVerError (ℕ × ℕ × ℕ)
unfolding core_number
parse_core (major ∷ minor ∷ patch ∷ []) = do
  x ← core_number major
  y ← core_number minor
  z ← core_number patch
  ok (x, y, z)
parse_core _ = err invalid_version

bad_prerelease : Option Text → Bool
unfolding valid_identifier_list
bad_prerelease none = false
bad_prerelease (some p) = text_eq p [] || not (valid_identifier_list p true)

bad_build : Option Text → Bool
unfolding valid_identifier_list contains
bad_build none = false
bad_build (some b) = text_eq b [] || contains b'+' b || not (valid_identifier_list b false)

parse_release : Text × Option Text → Result SemVerError (ℕ × ℕ × ℕ)
unfolding bad_prerelease parse_core split_dot
parse_release (core, prerelease) =
    if bad_prerelease prerelease then err invalid_version else parse_core (split_dot core)

parse_cut : Text × Option Text → Result SemVerError (ℕ × ℕ × ℕ)
unfolding bad_build parse_release cut
parse_cut (without_build, build) =
    if bad_build build then err invalid_version else parse_release (cut b'-' without_build)

-- `parseSemVer`
unfoldable pub parse_sem_ver : Text → Result SemVerError (ℕ × ℕ × ℕ)
unfolding parse_cut cut
parse_sem_ver value =
    if not (text_eq (trim value) value) || text_eq value []
    then err invalid_version
    else parse_cut (cut b'+' value)

-- A number in decimal, in front of a text; the fuel is one more than the number.
decimal_loop : ℕ → ℕ → Text → Text
decimal_loop zero n s = s
decimal_loop (suc fuel) n s =
    let rest = decimal_loop fuel (n / 10) ((b'0' + n % 10) ∷ s) in
    if ltb n 10 then (b'0' + n) ∷ s else rest

-- `%d`
unfoldable pub decimal : ℕ → Text
unfolding decimal_loop
decimal n = decimal_loop (suc n) n []

-- `WindowsFileVersion`
unfoldable pub windows_file_version : Text → Result SemVerError Text
unfolding decimal parse_sem_ver
windows_file_version product_version = do
  (major, minor, patch) ← parse_sem_ver product_version
  ok (decimal major ++ b'.' ∷ decimal minor ++ b'.' ∷ decimal patch ++ codes ".0")
