-- ===== src/MapTiles/Columns.antt =====
-- lib/maptiles.cpp: the columns of tiles wrap around, and what that makes of a range of them.
use aowis_server_map.Prelude.{
  ℕ, suc, ◌+◌, ◌-◌, ◌*◌, ◌/◌, ◌%◌, ◌≤◌, ◌<◌, ◌≡◌, ◌↔◌, sym, ap, ◌∙◌, true, ltb, ltb→lt, lt→ltb,
  ◌==◌, if◌then◌else◌, arith, inl, inr, Bool-cases,
}
use aowis_server_map.Prelude.Int.{
  ℤ, pos, negsuc, pos_part, neg_part, ltb_ℤ, leb_ℤ, ◌+ℤ◌, ◌-ℤ◌, ◌≤ℤ◌, +ℤ_parts, -ℤ_parts,
}
use native.Mathlib.Nat.{mod-lt, div-add-mod', add-mul-mod_self_right, mod-eq_of_lt}
use aowis_server_map.MapTiles.Range.{positive_modulo, tile_x_inside_range}

-- The two columns differ by a multiple of the count.
abbrev pub IsSameColumn : ℕ → ℤ → ℤ → Type 0
IsSameColumn count v w =
    (a : ℕ) × (b : ℕ) × (pos_part v + neg_part w + a * count ≡ pos_part w + neg_part v + b * count)

module _ (count : ℕ) (positive : 0 < count) where
  pub positive_modulo-lt : (v : ℤ) → positive_modulo v count < count
  unfolding positive_modulo
  positive_modulo-lt (pos n) = mod-lt n positive
  positive_modulo-lt (negsuc n) = ground (arith, positive, mod-lt (suc n) positive)

  pub positive_modulo-same : (v : ℤ) → IsSameColumn count v (pos (positive_modulo v count))
  unfolding positive_modulo
  positive_modulo-same (pos n) = (0, n / count, omega (arith, div-add-mod' n count))
  positive_modulo-same (negsuc n) =
      let d = div-add-mod' (suc n) count in
      elim (Bool-cases (suc n % count == 0)) [
        | inl e ↦ (suc n / count, 0, ground (arith, d, e))
        | inr e ↦ (suc (suc n / count), 0, ground (arith, d, e, mod-lt (suc n) positive))
      ]

  same_remainder : (r t a b : ℕ) → r < count → t < count → r + a * count ≡ t + b * count → r ≡ t
  same_remainder r t a b hr ht h =
      sym (mod-eq_of_lt hr)
      ∙ sym (add-mul-mod_self_right r a count)
      ∙ ap (λ n. n % count) h
      ∙ add-mul-mod_self_right t b count
      ∙ mod-eq_of_lt ht

  pub remainder_unique :
      (v : ℤ) (t : ℕ) → t < count → IsSameColumn count v (pos t) → t ≡ positive_modulo v count
  remainder_unique v t h (a, b, e) =
      let (c, d, f) = positive_modulo-same v in
      same_remainder t (positive_modulo v count) (b + c) (a + d) h (positive_modulo-lt v)
        (omega (arith, e, f))

  offset_decides :
      (o : ℕ) (w : ℤ)
      → o < count
      → (if leb_ℤ (pos count) w then true else ltb_ℤ (pos o) w) ≡ ltb_ℤ (pos o) w
  offset_decides o w h = ground (arith, h)

  -- The column's offset from the first one of the range.
  offset : ℤ → ℤ → ℕ
  offset x first = positive_modulo (x -ℤ pos (positive_modulo first count)) count

  offset-lt : (x first : ℤ) → offset x first < count
  unfolding offset
  offset-lt x first = positive_modulo-lt (x -ℤ pos (positive_modulo first count))

  inside-offset :
      (x low high : ℤ)
      → tile_x_inside_range x count low high ≡ ltb_ℤ (pos (offset x low)) (high -ℤ low +ℤ pos 1)
  unfolding tile_x_inside_range offset
  inside-offset x low high =
      offset_decides (positive_modulo (x -ℤ pos (positive_modulo low count)) count)
        (high -ℤ low +ℤ pos 1) (positive_modulo-lt (x -ℤ pos (positive_modulo low count)))

  offset-same : (x low : ℤ) → IsSameColumn count (low +ℤ pos (offset x low)) x
  unfolding offset
  offset-same x low =
      let first = positive_modulo low count in
      let x' = x -ℤ pos first in
      let o = positive_modulo x' count in
      let (a, b, e) = positive_modulo-same low in
      let (c, d, f) = positive_modulo-same x' in
      (a + d, b + c, omega (arith, e, f, -ℤ_parts x (pos first), +ℤ_parts low (pos o)))

  offset_unique :
      (x low : ℤ) (t : ℕ) → t < count → IsSameColumn count (low +ℤ pos t) x → t ≡ offset x low
  unfolding offset
  offset_unique x low t h (a, b, e) =
      let first = positive_modulo low count in
      let x' = x -ℤ pos first in
      let o = positive_modulo x' count in
      let (c, d, f) = positive_modulo-same low in
      let (i, j, g) = positive_modulo-same x' in
      same_remainder t o (a + d + i) (b + c + j) h (positive_modulo-lt x')
        (omega (arith, e, f, g, -ℤ_parts x (pos first), +ℤ_parts low (pos t)))

in_width :
    (o : ℕ) (low high : ℤ)
    → (ltb_ℤ (pos o) (high -ℤ low +ℤ pos 1) ≡ true)
      ↔ (pos_part low + o + neg_part high ≤ pos_part high + neg_part low)
in_width o low high =
    let width = high -ℤ low in
    let difference = -ℤ_parts high low in
    let one_more = +ℤ_parts width (pos 1) in
    (
      λ h. omega (
        arith,
        difference,
        one_more,
        ltb→lt (o + neg_part (width +ℤ pos 1)) (pos_part (width +ℤ pos 1) + 0) h,
      ),
      λ h.
          lt→ltb (o + neg_part (width +ℤ pos 1)) (pos_part (width +ℤ pos 1) + 0)
            (omega (arith, difference, one_more)),
    )

-- For a positive count and a range that is not empty: a column passes the test exactly if it differs by
-- a multiple of the count from a column of the range, from `low` to `high`, on either side of the
-- antimeridian.
pub tile_x_inside_range_iff :
    (count : ℕ) (x low high : ℤ)
    → 0 < count
    → low ≤ℤ high
    → (tile_x_inside_range x count low high ≡ true)
      ↔ ((c : ℤ) × (low ≤ℤ c) × (c ≤ℤ high) × IsSameColumn count c x)
tile_x_inside_range_iff count x low high positive order = (to, from)
  where
    to :
        tile_x_inside_range x count low high ≡ true
        → (c : ℤ) × (low ≤ℤ c) × (c ≤ℤ high) × IsSameColumn count c x
    to h =
        let o = offset count positive x low in
        let below = (in_width o low high).0 (sym (inside-offset count positive x low high) ∙ h) in
        let sum = +ℤ_parts low (pos o) in
        (
          low +ℤ pos o,
          omega (arith, sum),
          omega (arith, sum, below),
          offset-same count positive x low,
        )

    from :
        (c : ℤ) × (low ≤ℤ c) × (c ≤ℤ high) × IsSameColumn count c x
        → tile_x_inside_range x count low high ≡ true
    from (c, from_low, to_high, (a, b, e)) =
        let t = pos_part c + neg_part low - (pos_part low + neg_part c) in
        let o = offset count positive x low in
        let moved : IsSameColumn count (low +ℤ pos t) x =
          (a, b, omega (arith, e, from_low, +ℤ_parts low (pos t))) in
        let least : o ≤ t = elim (Bool-cases (ltb t count)) [
          | inl short ↦
              omega (arith, offset_unique count positive x low t (ltb→lt t count short) moved)
          | inr long ↦ ground (arith, long, offset-lt count positive x low)
        ] in
        inside-offset count positive x low high
        ∙ (in_width o low high).1 (omega (arith, least, from_low, to_high))
