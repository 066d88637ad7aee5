-- ===== src/Resume/ContentRange/Exact.antt =====
-- lib/copernicus_download_validation.h: the Content-Range parser accepts exactly one form.
use aowis_server_map.Prelude.{
  ℕ, suc, ◌+◌, ◌-◌, ◌≡◌, ◌≢◌, ◌↔◌, refl, sym, true, false, none, some, arith, ◌∷◌, ◌++◌, length,
  Bytes, drop, take, All-append, codes, append_assoc, leb, ◌==◌, length-append, take-append,
}
use aowis_server_map.Resume.Search.{
  index_of, starts_with, index_of-append, index_of-Lacks, starts_with-splits,
}
use aowis_server_map.Resume.Decimal.{parse_positive_decimal, parse_positive_decimal_iff, Spells}
use aowis_server_map.Resume.ContentRange.{
  CopernicusContentRange, parse_range_at, parse_range, parse_content_range, IsRange, Denotes,
}
use aowis_server_map.Resume.ContentRange.Places.{
  digits-lack, check_range_complete, parse_range_at-Denotes, parse_range-places, drop-past,
  nonempty-suc,
}

module _ (first last total : Bytes) (r : CopernicusContentRange) (f : Spells first r.first)
    (l : Spells last r.last) (t : Spells total r.total) (ok : IsRange r) where
  abbrev range : Bytes
  range = first ++ (b'-' ∷ (last ++ (b'/' ∷ total)))

  abbrev slash : ℕ
  slash = length (first ++ (b'-' ∷ last))

  regroup : range ≡ (first ++ (b'-' ∷ last)) ++ (b'/' ∷ total)
  regroup = sym (append_assoc first (b'-' ∷ last) (b'/' ∷ total))

  slash-eq : slash ≡ length first + (length last + 1)
  slash-eq = omega (arith, length-append first (b'-' ∷ last))

  dash-found : index_of b'-' range ≡ some (length first)
  dash-found = index_of-append b'-' first _ (digits-lack b'-' first (omega arith) f.digits)

  slash-found : index_of b'/' range ≡ some slash
  slash-found = rw regroup (
      index_of-append b'/' (first ++ (b'-' ∷ last)) total (
        All-append (λ x. x ≢ b'/') first (b'-' ∷ last)
          (digits-lack b'/' first (omega arith) f.digits)
          ((λ e. omega (arith, e)), digits-lack b'/' last (omega arith) l.digits)))

  no_dash : index_of b'-' (last ++ (b'/' ∷ total)) ≡ none
  no_dash = index_of-Lacks b'-' (last ++ (b'/' ∷ total)) (
      All-append (λ x. x ≢ b'-') last (b'/' ∷ total) (digits-lack b'-' last (omega arith) l.digits)
        ((λ e. omega (arith, e)), digits-lack b'-' total (omega arith) t.digits))

  no_slash : index_of b'/' total ≡ none
  no_slash = index_of-Lacks b'/' total (digits-lack b'/' total (omega arith) t.digits)

  after_dash : drop (length first + 1) range ≡ last ++ (b'/' ∷ total)
  after_dash = drop-past first (last ++ (b'/' ∷ total)) b'-' _ refl

  after_slash : drop (slash + 1) range ≡ total
  after_slash = rw regroup (drop-past (first ++ (b'-' ∷ last)) total b'/' _ refl)

  between : take (slash - length first - 1) (last ++ (b'/' ∷ total)) ≡ last
  between =
      let e : slash - length first - 1 ≡ length last = omega (arith, slash-eq) in
      rw e (take-append last (b'/' ∷ total))

  total_length : length range ≡ length first + (length last + (length total + 2))
  total_length = omega (
    arith,
    length-append first (b'-' ∷ (last ++ (b'/' ∷ total))),
    length-append last (b'/' ∷ total),
  )

  numbers :
      (parse_positive_decimal first ≡ some r.first)
      × (parse_positive_decimal last ≡ some r.last)
      × (parse_positive_decimal total ≡ some r.total)
  numbers = (
    (parse_positive_decimal_iff _ _).1 (f, omega arith),
    (parse_positive_decimal_iff _ _).1 (l, omega arith),
    (parse_positive_decimal_iff _ _).1 (t, ok.representable),
  )

  parse_range_at_complete : parse_range_at range (length first) slash ≡ some r
  unfolding parse_range_at
  parse_range_at_complete =
      let (n, some_last) = nonempty-suc last l.nonempty in
      let (m, some_total) = nonempty-suc total t.nonempty in
      let no_early : leb slash (length first + 1) ≡ false = ground (arith, slash-eq, some_last) in
      let no_late : (slash == length range - 1) ≡ false =
        ground (arith, slash-eq, total_length, some_total) in
      rw
        (
          no_early,
          no_late,
          after_dash,
          after_slash,
          no_dash,
          no_slash,
          take-append first (b'-' ∷ (last ++ (b'/' ∷ total))),
          between,
          numbers.0,
          numbers.1,
          numbers.2,
        )
        (check_range_complete r ok.ordered ok.inside)

  parse_range_complete : parse_range range ≡ some r
  unfolding parse_range
  parse_range_complete =
      let (n, some_first) = nonempty-suc first f.nonempty in
      ground (arith, dash-found, slash-found, some_first, parse_range_at_complete)

-- The parser accepts exactly the headers "bytes FIRST-LAST/TOTAL", with three numerals of which
-- FIRST is at most LAST, LAST is below TOTAL and TOTAL is at most 2 ^ 63 - 1, and returns their
-- numbers.
pub parse_content_range_iff :
    (header : Bytes) (r : CopernicusContentRange)
    → (parse_content_range header ≡ some r) ↔ (Denotes header r × IsRange r)
unfolding parse_content_range
parse_content_range_iff header r = (
  λ h.
      let begins : starts_with (codes "bytes ") header ≡ true = ground (arith, h) in
      let (dash, slash, d, s, at) = parse_range-places (drop 6 header) r (ground (arith, h)) in
      rw (starts_with-splits (codes "bytes ") header begins)
        (parse_range_at-Denotes (drop 6 header) (suc dash) slash r d s at),
  λ ((first, last, total, e, f, l, t), ok). rw e (parse_range_complete first last total r f l t ok),
)
