-- ===== src/Resume/ContentRange.antt =====
-- lib/copernicus_download_validation.h: `parseCopernicusContentRange`.
pub mod Places
pub mod Exact
use aowis_server_map.Prelude.{
  ℕ, zero, suc, ◌+◌, ◌-◌, ◌*◌, ◌/◌, ◌^◌, ◌≤◌, ◌<◌, ◌≡◌, ◌≢◌, ◌↔◌, refl, sym, ap, subst, ◌∙◌, Bool,
  true, false, not, ◌||◌, ◌&&◌, Option, none, some, arith, List, [], ◌∷◌, ◌++◌, length, Bytes, drop,
  take, All, All-append, is_empty, codes, eqb, eqb→eq, eqb_self, append_assoc, if◌then◌else◌, ltb,
  leb, ◌==◌, ==→eq, ==-self, ◌⊎◌, inl, inr, Bool-cases, Option-cases, length-append, length-take,
  length-drop, take-append, drop-append, take-all, tests,
}
use aowis_server_map.Resume.Search.{
  index_of, starts_with, Lacks, index_of-append, index_of-Lacks, index_of-splits,
  starts_with-append, starts_with-splits,
}
use aowis_server_map.Resume.Decimal.{
  parse_positive_decimal, parse_positive_decimal_iff, Spells, IsDigit, qint64_max,
}

pub record CopernicusContentRange : Type 0 where
  pub first : ℕ
  pub last : ℕ
  pub total : ℕ

abbrev pub is_some {ℓ} : {A : Type ℓ} → Option A → Bool
is_some none = false
is_some (some a) = true

-- The tests on the three numbers.
unfoldable pub check_range : Option ℕ → Option ℕ → Option ℕ → Option CopernicusContentRange
check_range none last total = none
check_range (some first) none total = none
check_range (some first) (some last) none = none
check_range (some first) (some last) (some total) =
    if total == 0 || ltb last first || leb total last
    then none
    else some (record { first = first; last = last; total = total })

-- The rest of the parser, with the places of the dash and the slash.
unfoldable pub parse_range_at : Bytes → ℕ → ℕ → Option CopernicusContentRange
unfolding index_of parse_positive_decimal check_range
parse_range_at range dash slash =
    if leb slash (dash + 1)
      || slash == length range - 1
      || is_some (index_of b'-' (drop (dash + 1) range))
      || is_some (index_of b'/' (drop (slash + 1) range))
    then none
    else check_range (parse_positive_decimal (take dash range))
        (parse_positive_decimal (take (slash - dash - 1) (drop (dash + 1) range)))
        (parse_positive_decimal (drop (slash + 1) range))

-- With no dash, or one in front, `dash <= 0`; with no slash, `slash <= dash + 1`.
unfoldable pub parse_range : Bytes → Option CopernicusContentRange
unfolding index_of parse_range_at
parse_range range = elim (index_of b'-' range) [
  | none ↦ none
  | some zero ↦ none
  | some (suc dash) ↦ elim (index_of b'/' range) [
    | none ↦ none
    | some slash ↦ parse_range_at range (suc dash) slash
  ]
]

unfoldable pub parse_content_range : Bytes → Option CopernicusContentRange
unfolding starts_with parse_range
parse_content_range header =
    if starts_with (codes "bytes ") header then parse_range (drop 6 header) else none

-- What the numbers of an accepted range satisfy.
pub record IsRange (r : CopernicusContentRange) : Type 0 where
  pub ordered : r.first ≤ r.last
  pub inside : r.last < r.total
  pub representable : r.total ≤ qint64_max

-- The header is "bytes FIRST-LAST/TOTAL" for three numerals.
abbrev pub Denotes : Bytes → CopernicusContentRange → Type 0
Denotes header r =
    (first last total : Bytes) × (header
      ≡ codes "bytes " ++ (first ++ (b'-' ∷ (last ++ (b'/' ∷ total)))))
    × Spells first r.first
    × Spells last r.last
    × Spells total r.total
