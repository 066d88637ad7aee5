-- ===== src/Resume/ContentRange/Places.antt =====
-- lib/copernicus_download_validation.h: the places of the dash and the slash in a Content-Range.
use aowis_server_map.Prelude.{
  ℕ, zero, suc, ◌+◌, ◌-◌, ◌≤◌, ◌<◌, ◌≡◌, ◌≢◌, refl, ap, ◌∙◌, Option, none, some, arith, [], ◌∷◌,
  ◌++◌, length, Bytes, drop, take, All, codes,
}
use aowis_server_map.Resume.Search.{index_of, Lacks, index_of-splits}
use aowis_server_map.Resume.Decimal.{parse_positive_decimal, parse_positive_decimal_iff, IsDigit}
use aowis_server_map.Resume.ContentRange.{
  CopernicusContentRange, check_range, parse_range_at, parse_range, IsRange, Denotes,
}

pub digits-lack : (c : ℕ) (xs : Bytes) → c < b'0' → All IsDigit xs → Lacks c xs
digits-lack c [] h d = tt
digits-lack c (x ∷ xs) h d = (λ e. omega (arith, d.0), digits-lack c xs h d.1)

pub check_range_sound :
    (first last total : Option ℕ) (r : CopernicusContentRange)
    → check_range first last total ≡ some r
    → (first ≡ some r.first)
      × (last ≡ some r.last)
      × (total ≡ some r.total)
      × (r.first ≤ r.last)
      × (r.last < r.total)
unfolding check_range
check_range_sound none last total r h = ground arith
check_range_sound (some first) none total r h = ground arith
check_range_sound (some first) (some last) none r h = ground arith
check_range_sound (some first) (some last) (some total) r h = ground arith

pub check_range_complete :
    (r : CopernicusContentRange)
    → r.first ≤ r.last
    → r.last < r.total
    → check_range (some r.first) (some r.last) (some r.total) ≡ some r
unfolding check_range
check_range_complete r h k = ground arith

pub cons-tail : {x y : ℕ} {xs ys : Bytes} → x ∷ xs ≡ y ∷ ys → xs ≡ ys
cons-tail e = cc

pub drop-splits :
    (n m : ℕ) (xs zs : Bytes)
    → n ≤ m
    → m ≤ length xs
    → xs ≡ take m xs ++ zs
    → drop n xs ≡ take (m - n) (drop n xs) ++ zs
drop-splits zero m xs zs h k e = rw (sub-zero m) e
  where
    sub-zero : (m : ℕ) → m - 0 ≡ m
    sub-zero m = omega arith
drop-splits (suc n) zero xs zs h k e = absurd (omega arith)
drop-splits (suc n) (suc m) [] zs h k e = absurd (omega arith)
drop-splits (suc n) (suc m) (x ∷ xs) zs h k e =
    rw (suc-sub m n) (drop-splits n m xs zs (omega arith) (omega arith) (cons-tail e))
  where
    suc-sub : (m n : ℕ) → suc m - suc n ≡ m - n
    suc-sub m n = omega arith

pub parse_range_at_sound :
    (range : Bytes) (dash slash : ℕ) (r : CopernicusContentRange)
    → parse_range_at range dash slash ≡ some r
    → (dash + 1 < slash)
      × (check_range
            (parse_positive_decimal (take dash range))
            (parse_positive_decimal (take (slash - dash - 1) (drop (dash + 1) range)))
            (parse_positive_decimal (drop (slash + 1) range))
          ≡ some r)
unfolding parse_range_at
parse_range_at_sound range dash slash r h = ground arith

-- The three parts of an accepted range, put together again.
pub parts-join :
    (range : Bytes) (dash slash : ℕ)
    → index_of b'-' range ≡ some dash
    → index_of b'/' range ≡ some slash
    → dash + 1 < slash
    → range
      ≡ take dash range
        ++ (b'-'
            ∷ (take (slash - dash - 1) (drop (dash + 1) range) ++ (b'/' ∷ drop (slash + 1) range)))
parts-join range dash slash d s h =
    let (whole, _, _) = index_of-splits b'-' range dash d in
    let (whole', _, inside) = index_of-splits b'/' range slash s in
    let plus_one : (n : ℕ) → n + 1 ≡ suc n = λ n. omega arith in
    let between : slash - dash - 1 ≡ slash - suc dash = omega arith in
    rw (plus_one dash, plus_one slash, between)
      (whole
        ∙ ap (λ rest. take dash range ++ (b'-' ∷ rest))
            (drop-splits (suc dash) slash range (b'/' ∷ drop (suc slash) range) (omega arith)
              (omega arith) whole'))

pub parse_range_at-Denotes :
    (range : Bytes) (dash slash : ℕ) (r : CopernicusContentRange)
    → index_of b'-' range ≡ some dash
    → index_of b'/' range ≡ some slash
    → parse_range_at range dash slash ≡ some r
    → Denotes (codes "bytes " ++ range) r × IsRange r
parse_range_at-Denotes range dash slash r d s h =
    let (apart, checked) = parse_range_at_sound range dash slash r h in
    let (first, last, total, ordered, inside) = check_range_sound _ _ _ r checked in
    let total_spelled = (parse_positive_decimal_iff _ _).0 total in
    (
      (
        take dash range,
        take (slash - dash - 1) (drop (dash + 1) range),
        drop (slash + 1) range,
        ap (λ z. codes "bytes " ++ z) (parts-join range dash slash d s apart),
        ((parse_positive_decimal_iff _ _).0 first).0,
        ((parse_positive_decimal_iff _ _).0 last).0,
        total_spelled.0,
      ),
      record { ordered = ordered; inside = inside; representable = total_spelled.1 },
    )

pub parse_range-places :
    (range : Bytes) (r : CopernicusContentRange)
    → parse_range range ≡ some r
    → (dash slash : ℕ) × (index_of b'-' range ≡ some (suc dash))
      × (index_of b'/' range ≡ some slash)
      × (parse_range_at range (suc dash) slash ≡ some r)
unfolding parse_range
parse_range-places range r h = go (index_of b'-' range) (index_of b'/' range) refl refl
  where
    go :
        (d s : Option ℕ)
        → index_of b'-' range ≡ d
        → index_of b'/' range ≡ s
        → (dash slash : ℕ) × (index_of b'-' range ≡ some (suc dash))
          × (index_of b'/' range ≡ some slash)
          × (parse_range_at range (suc dash) slash ≡ some r)
    go none s d≡ s≡ = absurd (ground (arith, d≡, h))
    go (some zero) s d≡ s≡ = absurd (ground (arith, d≡, h))
    go (some (suc dash)) none d≡ s≡ = absurd (ground (arith, d≡, s≡, h))
    go (some (suc dash)) (some slash) d≡ s≡ = (dash, slash, d≡, s≡, ground (arith, d≡, s≡, h))

pub drop-past : (xs ys : Bytes) (c n : ℕ) → n ≡ length xs + 1 → drop n (xs ++ (c ∷ ys)) ≡ ys
drop-past [] ys c n e = rw e
drop-past (x ∷ xs) ys c zero e = absurd (omega (arith, e))
drop-past (x ∷ xs) ys c (suc n) e = drop-past xs ys c n (omega (arith, e))

pub nonempty-suc : (xs : Bytes) → xs ≢ [] → (n : ℕ) × (length xs ≡ suc n)
nonempty-suc [] h = absurd (h refl)
nonempty-suc (x ∷ xs) h = (length xs, refl)
