-- ===== src/Config/Parsing.antt =====
-- parsePositiveInt64 of internal/config: limits as decimal numbers.
use flashgate_mcp.Base.{
  ℕ, ◌+◌, ◌-◌, ◌*◌, ◌^◌, ◌<◌, ◌≡◌, refl, some, List, [], ◌∷◌, arith, map, All, Text, ap,
}
use flashgate_mcp.Config.{parse_digits, parse_positive}

-- A limit that is read from a text is positive and fits an int64.
pub parse_positive_bounds :
    (value : Text) (n : ℕ) → parse_positive value ≡ some n → (0 < n) × (n < 2 ^ 63)
unfolding parse_positive
parse_positive_bounds value n h = ground arith

-- The number that decimal digits stand for, behind those that stand for `n`.
unfoldable pub number_of : ℕ → List ℕ → ℕ
number_of n [] = n
number_of n (d ∷ ds) = number_of (n * 10 + d) ds

abbrev pub digit_codes : List ℕ → Text
digit_codes = map (λ d. d + b'0')

parse_digits-codes :
    (n : ℕ) (ds : List ℕ)
    → All (λ d. d < 10) ds
    → parse_digits n (digit_codes ds) ≡ some (number_of n ds)
unfolding parse_digits number_of
parse_digits-codes n [] h = refl
parse_digits-codes n (d ∷ ds) h =
    let same : n * 10 + (d + b'0' - b'0') ≡ n * 10 + d = omega arith in
    ground (
      arith,
      parse_digits-codes (n * 10 + d) ds h.1,
      ap (λ k. parse_digits k (digit_codes ds)) same,
    )

-- Decimal digits, with or without a plus sign, are read as the number that they stand for, if it
-- is positive and fits an int64.
pub parse_positive-digits :
    (d : ℕ) (ds : List ℕ)
    → All (λ d. d < 10) (d ∷ ds)
    → 0 < number_of 0 (d ∷ ds)
    → number_of 0 (d ∷ ds) < 2 ^ 63
    → (parse_positive (digit_codes (d ∷ ds)) ≡ some (number_of 0 (d ∷ ds)))
      × (parse_positive (b'+' ∷ digit_codes (d ∷ ds)) ≡ some (number_of 0 (d ∷ ds)))
unfolding parse_positive
parse_positive-digits d ds h low high =
    (ground (arith, parse_digits-codes 0 (d ∷ ds)), ground (arith, parse_digits-codes 0 (d ∷ ds)))
