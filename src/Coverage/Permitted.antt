-- ===== src/Coverage/Permitted.antt =====
-- lib/download_coverage.cpp: which tiles a profile permits.
use aowis_server_map.Prelude.{
  ℕ, suc, ◌-◌, ◌%◌, ◌^◌, ◌<◌, ◌≡◌, ◌↔◌, refl, sym, ap, subst, ◌∙◌, Bool, true, false, not, ◌||◌,
  ◌==◌, Option, none, some, List, [], Text, is_empty, if◌then◌else◌, arith, ◌⊎◌, inl, inr,
  Bool-cases,
}
use aowis_server_map.Prelude.Int.{ℤ, pos, negsuc, pos_part, ltb_ℤ, leb_ℤ, ◌≤ℤ◌}
use aowis_server_map.Platform.Doubles.{Doubles}
use aowis_server_map.MapTiles.Range.{positive_modulo}
use aowis_server_map.MapTiles.Columns.{
  IsSameColumn, positive_modulo-lt, positive_modulo-same, remainder_unique,
}
use aowis_server_map.Coverage.Profile.{Tier}
use aowis_server_map.Coverage.Geometry.{Bounds, xyz_bounds}
use aowis_server_map.Coverage.Permits.{
  value_of, wrapped_column, Coverage, profile_permits, is_known, permits_tile,
}
use aowis_server_map.Coverage.Areas.{Permits, profile_iff}
use aowis_server_map.MapTiles.Images.{empty_nil}
use native.Mathlib.Nat.{mod-lt, add-mod_right, mod_self, one-le-pow, mod-eq_of_lt}

wrap_small :
    (r count : ℕ)
    → r == 0 ≡ true
    → 0 < count
    → (count - r) % count ≡ (if r == 0 then 0 else count - r)
wrap_small r count e h =
    let zero_left : r ≡ 0 = ground (arith, e) in
    rw zero_left (ap (λ n. n % count) (omega arith) ∙ mod_self count)

-- The wrapped column is the remainder that is not negative.
wrapped_column-modulo :
    (x : ℤ) (count : ℕ) → 0 < count → wrapped_column x count ≡ positive_modulo x count
unfolding wrapped_column positive_modulo
wrapped_column-modulo (pos n) count h = add-mod_right (n % count) count ∙ mod-eq_of_lt (mod-lt n h)
wrapped_column-modulo (negsuc n) count h = elim (Bool-cases (suc n % count == 0)) [
  | inl e ↦ wrap_small (suc n % count) count e h
  | inr e ↦
      ground (arith, e, h, mod-lt (suc n) h, mod-eq_of_lt {n = count - suc n % count} {m = count})
]

chain_iff :
    (zoom known row permits : Bool)
    → (permits ≡ true → known ≡ true)
    → ((if zoom || not known then false else if row then false else if zoom then false else permits)
        ≡ true)
      ↔ ((zoom ≡ false) × (row ≡ false) × (permits ≡ true))
chain_iff zoom known row permits h =
    (λ e. ground (arith, e), λ (a, b, e). ground (arith, a, b, e, h e))

column_range :
    (zoom y : ℤ)
    → ltb_ℤ y (pos 0) || leb_ℤ (pos (2 ^ pos_part zoom)) y ≡ false
    → (pos 0 ≤ℤ y) × (pos_part y < 2 ^ pos_part zoom)
column_range zoom y h = (ground (arith, h), ground (arith, h))

power_positive : (n : ℕ) → 0 < 2 ^ n
power_positive n = one-le-pow n 2 (omega arith)

module _ (fp : Doubles) (c : Coverage fp) where
  -- The tile's place is in range, and what is permitted there.
  pub record PermittedTile (profile : Text) (zoom x y : ℤ) : Type 0 where
    pub zoom_low : pos 0 ≤ℤ zoom
    pub zoom_high : zoom ≤ℤ pos 30
    pub row_low : pos 0 ≤ℤ y
    pub row_high : pos_part y < 2 ^ pos_part zoom
    pub column : ℕ
    pub column_high : column < 2 ^ pos_part zoom
    pub same_column : IsSameColumn (2 ^ pos_part zoom) x (pos column)
    pub permits : Permits fp c profile zoom (xyz_bounds fp (pos_part zoom) column (pos_part y))

  known_of_permits :
      (zoom : ℤ) (area : Bounds fp) (o : Option (List Tier))
      → profile_permits fp c o zoom area ≡ true
      → is_known fp o ≡ true
  unfolding profile_permits
  known_of_permits zoom area none h = ground (arith, h)
  known_of_permits zoom area (some tiers) h = refl

  tests_iff :
      (profile : Text) (zoom x y : ℤ)
      → is_empty profile ≡ false
      → (permits_tile fp c profile zoom x y ≡ true) ↔ (
          (ltb_ℤ zoom (pos 0) || ltb_ℤ (pos 30) zoom ≡ false)
          × (ltb_ℤ y (pos 0) || leb_ℤ (pos (2 ^ pos_part zoom)) y ≡ false)
          × (profile_permits fp c
                (value_of profile c.profiles)
                zoom
                (xyz_bounds fp (pos_part zoom) (wrapped_column x (2 ^ pos_part zoom)) (pos_part y))
              ≡ true))
  unfolding permits_tile
  tests_iff profile zoom x y named =
      let area =
        xyz_bounds fp (pos_part zoom) (wrapped_column x (2 ^ pos_part zoom)) (pos_part y) in
      rw (named, permits_tile)
        (chain_iff (ltb_ℤ zoom (pos 0) || ltb_ℤ (pos 30) zoom)
          (is_known fp (value_of profile c.profiles))
          (ltb_ℤ y (pos 0) || leb_ℤ (pos (2 ^ pos_part zoom)) y)
          (profile_permits fp c (value_of profile c.profiles) zoom area)
          (known_of_permits zoom area (value_of profile c.profiles)))

  -- An empty profile permits every tile. Another one permits a tile exactly if the zoom is from 0 to 30,
  -- the row is one of the zoom, and, for the column of the zoom that differs from `x` by a multiple of
  -- their number, the profile is known and has a tier of this zoom with the world or with a known region
  -- one of whose rectangles or polygons meets the bounds of the tile.
  pub permits_tile_iff :
      (profile : Text) (zoom x y : ℤ)
      → (permits_tile fp c profile zoom x y ≡ true)
        ↔ ((profile ≡ []) ⊎ PermittedTile profile zoom x y)
  unfolding permits_tile
  permits_tile_iff profile zoom x y = (to, from)
    where
      to :
          permits_tile fp c profile zoom x y ≡ true
          → (profile ≡ []) ⊎ PermittedTile profile zoom x y
      to h = elim (Bool-cases (is_empty profile)) [
        | inl e ↦ inl (empty_nil profile e)
        | inr named ↦
            let tests = (tests_iff profile zoom x y named).0 h in
            let row = column_range zoom y tests.1 in
            let count = 2 ^ pos_part zoom in
            let positive = power_positive (pos_part zoom) in
            let wrapped = wrapped_column-modulo x count positive in
            inr (record {
              zoom_low = ground (arith, tests.0);
              zoom_high = ground (arith, tests.0);
              row_low = row.0;
              row_high = row.1;
              column = wrapped_column x count;
              column_high = omega (arith, wrapped, positive_modulo-lt count positive x);
              same_column =
                  subst (λ n. IsSameColumn count x (pos n)) (sym wrapped)
                    (positive_modulo-same count positive x);
              permits =
                  (profile_iff fp c zoom
                      (xyz_bounds fp (pos_part zoom) (wrapped_column x count) (pos_part y))
                      (value_of profile c.profiles)).0
                    tests.2;
            })
      ]

      from :
          (profile ≡ []) ⊎ PermittedTile profile zoom x y
          → permits_tile fp c profile zoom x y ≡ true
      from (inl e) = rw e refl
      from (inr p) = elim (Bool-cases (is_empty profile)) [
        | inl e ↦ rw (e, permits_tile) refl
        | inr named ↦
            let count = 2 ^ pos_part zoom in
            let positive = power_positive (pos_part zoom) in
            let same : p.column ≡ wrapped_column x count =
              remainder_unique count positive x p.column p.column_high p.same_column
              ∙ sym (wrapped_column-modulo x count positive) in
            (tests_iff profile zoom x y named).1 (
              ground (arith, p.zoom_low, p.zoom_high),
              ground (arith, p.row_low, p.row_high),
              subst
                  (λ n.
                    profile_permits fp c (value_of profile c.profiles) zoom
                      (xyz_bounds fp (pos_part zoom) n (pos_part y))
                    ≡ true)
                  same
                  ((profile_iff fp c zoom (xyz_bounds fp (pos_part zoom) p.column (pos_part y))
                      (value_of profile c.profiles)).1
                    p.permits),
            )
      ]
