-- ===== src/Resume/Decimal.antt =====
-- lib/copernicus_download_validation.h: `parseCopernicusPositiveDecimal`.
use aowis_server_map.Prelude.{
  ℕ, ◌+◌, ◌-◌, ◌*◌, ◌/◌, ◌^◌, ◌≤◌, ◌≡◌, ◌≢◌, ◌↔◌, refl, ap, ◌∙◌, ◌||◌, Option, none, some, arith,
  [], ◌∷◌, Bytes, All, is_empty, if◌then◌else◌, ltb,
}

-- `std::numeric_limits<qint64>::max()`
abbrev pub qint64_max : ℕ
qint64_max = 2 ^ 63 - 1

-- The loop. A `char` above 127 is negative, so it fails the test like any other.
unfoldable pub parse_digits : ℕ → Bytes → Option ℕ
parse_digits value [] = some value
parse_digits value (digit ∷ rest) =
    let more = parse_digits (value * 10 + (digit - b'0')) rest in
    if ltb digit b'0' || ltb b'9' digit
    then none
    else if ltb ((qint64_max - (digit - b'0')) / 10) value
    then none
    else more

unfoldable pub parse_positive_decimal : Bytes → Option ℕ
unfolding parse_digits
parse_positive_decimal bytes = if is_empty bytes then none else parse_digits 0 bytes

abbrev pub IsDigit : ℕ → Type 0
IsDigit c = (b'0' ≤ c) × (c ≤ b'9')

-- The number that the digits spell, after `value`.
abbrev pub spelled_after : ℕ → Bytes → ℕ
spelled_after value [] = value
spelled_after value (digit ∷ rest) = spelled_after (value * 10 + (digit - b'0')) rest

abbrev pub spelled : Bytes → ℕ
spelled bytes = spelled_after 0 bytes

-- A numeral: at least one digit, all of them digits, and the number.
pub record Spells (bytes : Bytes) (n : ℕ) : Type 0 where
  pub nonempty : bytes ≢ []
  pub digits : All IsDigit bytes
  pub value : spelled bytes ≡ n

spelled_after-ge : (value : ℕ) (bytes : Bytes) → value ≤ spelled_after value bytes
spelled_after-ge value [] = omega arith
spelled_after-ge value (digit ∷ rest) =
    omega (arith, spelled_after-ge (value * 10 + (digit - b'0')) rest)

parse_digits_complete :
    (value : ℕ) (bytes : Bytes)
    → All IsDigit bytes
    → spelled_after value bytes ≤ qint64_max
    → parse_digits value bytes ≡ some (spelled_after value bytes)
unfolding parse_digits
parse_digits_complete value [] d h = refl
parse_digits_complete value (digit ∷ rest) d h = ground (
  arith,
  spelled_after-ge (value * 10 + (digit - b'0')) rest,
  parse_digits_complete (value * 10 + (digit - b'0')) rest d.1 h,
  d.0,
)

parse_digits_sound :
    (value : ℕ) (bytes : Bytes) (n : ℕ)
    → value ≤ qint64_max
    → parse_digits value bytes ≡ some n
    → All IsDigit bytes × (spelled_after value bytes ≡ n) × (n ≤ qint64_max)
unfolding parse_digits
parse_digits_sound value [] n v h = (tt, ground (arith, h), ground (arith, h))
parse_digits_sound value (digit ∷ rest) n v h =
    ground (arith, parse_digits_sound (value * 10 + (digit - b'0')) rest n, h)

-- The parser succeeds exactly on the numerals of at least one digit whose number is at most
-- 2 ^ 63 - 1, and its result is that number; leading zeros are allowed.
pub parse_positive_decimal_iff :
    (bytes : Bytes) (n : ℕ)
    → (parse_positive_decimal bytes ≡ some n) ↔ (Spells bytes n × (n ≤ qint64_max))
unfolding parse_positive_decimal
parse_positive_decimal_iff [] n = (λ h. ground (arith, h), λ s. absurd (s.0.nonempty refl))
parse_positive_decimal_iff (digit ∷ rest) n = (
  λ h.
      let (digits, value, bound) = parse_digits_sound 0 (digit ∷ rest) n (omega arith) h in
      (record { nonempty = cons-ne; digits = digits; value = value }, bound),
  λ s.
      parse_digits_complete 0 (digit ∷ rest) s.0.digits (omega (arith, s.0.value, s.1))
      ∙ ap some s.0.value,
)
  where
    cons-ne : digit ∷ rest ≢ []
    cons-ne e = cc
