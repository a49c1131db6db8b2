-- ===== src/Filepath.antt =====
-- The lexical functions of Go's path/filepath that the server uses, as they behave with the
-- separator `/`. They work on the elements between the separators.
pub mod Splitting
pub mod Cleaning
pub mod Absolute
pub mod Joining
pub mod Relative
use flashgate_mcp.Base.{
  ℕ, zero, suc, ◌+◌, ◌≡◌, ◌≢◌, Bool, true, false, not, ◌&&◌, ◌||◌, Option, none, some, List, [],
  ◌∷◌, ◌++◌, ◌==◌, if◌then◌else◌, Text, text_eq, has_prefix, length, replicate, drop_last,
}

abbrev pub dot : Text
dot = b'.' ∷ []

-- The parent element.
abbrev pub up : Text
up = b'.' ∷ b'.' ∷ []

abbrev pub slash : Text
slash = b'/' ∷ []

-- What a separator makes of the elements behind it, and what another code point does.
abbrev push_front : ℕ → List Text → List Text
push_front c [] = (c ∷ []) ∷ []
push_front c (p ∷ ps) = (c ∷ p) ∷ ps

-- `strings.Split(s, "/")`
unfoldable pub split_slash : Text → List Text
split_slash [] = [] ∷ []
split_slash (c ∷ s) = let rest = split_slash s in if c == b'/' then [] ∷ rest else push_front c rest

-- `strings.Join(ps, "/")`
unfoldable pub join_slash : List Text → Text
join_slash [] = []
join_slash (p ∷ []) = p
join_slash (p ∷ q ∷ ps) = p ++ b'/' ∷ join_slash (q ∷ ps)

-- A path that `Clean` has read: the `..` elements that it cannot resolve, and the names below.
pub record Cleaned : Type 0 where
  pub rooted : Bool
  pub ups : ℕ
  pub names : List Text

-- `filepath.IsAbs`
unfoldable pub is_abs : Text → Bool
is_abs [] = false
is_abs (c ∷ s) = c == b'/'

-- `..` takes the last name away, or stays if there is none; at the root it is dropped.
clean_up : Cleaned → Cleaned
clean_up c = elim c.names [
  | [] ↦ if c.rooted then c else record c { ups = c.ups + 1 }
  | _ ∷ _ ↦ record c { names = drop_last c.names }
]

-- One element of `Clean`'s loop.
clean_step : Cleaned → Text → Cleaned
unfolding clean_up text_eq
clean_step c part =
    if text_eq part [] || text_eq part dot
    then c
    else if text_eq part up
    then clean_up c
    else record c { names = c.names ++ part ∷ [] }

pub clean_loop : Cleaned → List Text → Cleaned
unfolding clean_step
clean_loop c [] = c
clean_loop c (p ∷ ps) = clean_loop (clean_step c p) ps

unfoldable pub read_path : Text → Cleaned
unfolding clean_loop split_slash is_abs
read_path s = clean_loop (record { rooted = is_abs s; ups = 0; names = [] }) (split_slash s)

-- The elements of a cleaned path, the unresolved `..` first.
abbrev pub elements : Cleaned → List Text
elements c = replicate c.ups up ++ c.names

-- A relative path with no element is written ".".
unfoldable pub write_relative : List Text → Text
unfolding join_slash
write_relative [] = dot
write_relative (p ∷ ps) = join_slash (p ∷ ps)

unfoldable pub write_path : Cleaned → Text
unfolding write_relative
write_path c = if c.rooted then b'/' ∷ join_slash (elements c) else write_relative (elements c)

-- `filepath.Clean`
unfoldable pub clean : Text → Text
unfolding read_path write_path
clean s = write_path (read_path s)

-- `filepath.Join` of two elements: empty ones are left out.
unfoldable pub join_path : Text → Text → Text
unfolding clean
join_path [] [] = []
join_path [] (c ∷ t) = clean (c ∷ t)
join_path (c ∷ s) [] = clean (c ∷ s)
join_path (c ∷ s) (d ∷ t) = clean ((c ∷ s) ++ b'/' ∷ d ∷ t)

-- `filepath.Dir`: the path up to its last separator, cleaned.
unfoldable pub dir : Text → Text
unfolding split_slash join_slash clean
dir s = clean (join_slash (drop_last (split_slash s) ++ [] ∷ []))

-- The elements behind the common ones of a base and a target.
strip_common : List Text → List Text → List Text × List Text
strip_common [] ts = ([], ts)
strip_common (b ∷ bs) [] = (b ∷ bs, [])
strip_common (b ∷ bs) (t ∷ ts) =
    let rest = strip_common bs ts in if text_eq b t then rest else (b ∷ bs, t ∷ ts)

-- A target cannot be reached out of a base that begins with an unresolved `..`.
rel_elements : List Text × List Text → Option (List Text)
rel_elements ([], ts) = some ts
rel_elements (b ∷ bs, []) = some (replicate (length (b ∷ bs)) up)
rel_elements (b ∷ bs, t ∷ ts) =
    if text_eq b up then none else some (replicate (length (b ∷ bs)) up ++ t ∷ ts)

relate : Cleaned → Cleaned → Option (List Text)
unfolding strip_common rel_elements text_eq
relate b t =
    if b.rooted && not t.rooted || not b.rooted && t.rooted
    then none
    else rel_elements (strip_common (elements b) (elements t))

written : Option (List Text) → Option Text
unfolding write_relative
written none = none
written (some ps) = some (write_relative ps)

-- `filepath.Rel(base, target)`; `none` is its error.
unfoldable pub rel : Text → Text → Option Text
unfolding relate written read_path
rel base target = written (relate (read_path base) (read_path target))

abbrev pub NoSlash : Text → Type 0
NoSlash [] = Unit
NoSlash (c ∷ p) = (c ≢ b'/') × NoSlash p

-- A relative path that begins with `..`.
unfoldable pub leads_up : Text → Bool
unfolding text_eq has_prefix
leads_up s = text_eq s up || has_prefix s (up ++ slash)

-- An element that names an entry of a directory.
pub record IsName (p : Text) : Type 0 where
  pub non_empty : p ≢ []
  pub not_dot : p ≢ dot
  pub not_up : p ≢ up
  pub no_slash : NoSlash p
