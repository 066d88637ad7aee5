-- ===== src/Coverage/Geometry.antt =====
-- lib/download_coverage.cpp: rectangles, polygons and tiles as bounds.
use aowis_server_map.Prelude.{
  ℕ, ◌+◌, ◌^◌, Bool, true, false, not, ◌||◌, ◌&&◌, List, [], ◌∷◌, if◌then◌else◌,
}
use aowis_server_map.Prelude.Int.{pos, negsuc}
use aowis_server_map.Platform.Doubles.{Doubles}

module _ (fp : Doubles) where
  open fp use {
    Double, of_int, tiny, pi, is_finite, lt, le, add, sub, mul, div, absolute, smaller, larger,
    sinh, atan, to_degrees,
  }

  pub record Bounds : Type 0 where
    pub west : Double
    pub south : Double
    pub east : Double
    pub north : Double

  pub record Point : Type 0 where
    pub lon : Double
    pub lat : Double

  pub record Polygon : Type 0 where
    pub rings : List (List Point)
    pub envelope : Bounds

  pub record Region : Type 0 where
    pub rectangles : List Bounds
    pub polygons : List Polygon

  unfoldable pub valid_bounds : Bounds → Bool
  valid_bounds b =
      is_finite b.west
      && is_finite b.east
      && is_finite b.south
      && is_finite b.north
      && le (of_int (negsuc 179)) b.west
      && le b.east (of_int (pos 180))
      && le b.west b.east
      && le (of_int (negsuc 89)) b.south
      && le b.north (of_int (pos 90))
      && le b.south b.north

  unfoldable pub latitude : Double → ℕ → Double
  latitude count row = to_degrees (
      atan (
        sinh (mul pi (sub (of_int (pos 1)) (div (mul (of_int (pos 2)) (of_int (pos row))) count)))))

  -- The bounds of a tile whose numbers are in range.
  unfoldable pub xyz_bounds : ℕ → ℕ → ℕ → Bounds
  unfolding latitude
  xyz_bounds zoom x y =
      let count = of_int (pos (2 ^ zoom)) in
      record {
        west = sub (mul (div (of_int (pos x)) count) (of_int (pos 360))) (of_int (pos 180));
        south = latitude count (y + 1);
        east = sub (mul (div (of_int (pos (x + 1))) count) (of_int (pos 360))) (of_int (pos 180));
        north = latitude count y;
      }

  unfoldable pub intersects : Bounds → Bounds → Bool
  intersects a b = le a.west b.east && le b.west a.east && le a.south b.north && le b.south a.north

  abbrev pub differ : Bool → Bool → Bool
  differ true b = not b
  differ false b = b

  -- Whether the edge from `b` to `a` is crossed by the ray from the point.
  unfoldable pub edge_crossed : Point → Point → Double → Double → Bool
  edge_crossed a b x y =
      differ (lt y a.lat) (lt y b.lat)
      && lt x (add (div (mul (sub b.lon a.lon) (sub y a.lat)) (sub b.lat a.lat)) a.lon)

  -- The loop over the points, with the one before.
  unfoldable pub ring_loop : Point → List Point → Double → Double → Bool → Bool
  unfolding edge_crossed
  ring_loop previous [] x y inside = inside
  ring_loop previous (a ∷ rest) x y inside =
      ring_loop a rest x y (if edge_crossed a previous x y then not inside else inside)

  abbrev pub last_point : Point → List Point → Point
  last_point p [] = p
  last_point p (q ∷ rest) = last_point q rest

  unfoldable pub ring_contains : List Point → Double → Double → Bool
  unfolding ring_loop
  ring_contains [] x y = false
  ring_contains (p ∷ rest) x y = ring_loop (last_point p rest) (p ∷ rest) x y false

  unfoldable pub cross : Point → Point → Point → Double
  cross p q r =
      sub (mul (sub q.lon p.lon) (sub r.lat p.lat)) (mul (sub q.lat p.lat) (sub r.lon p.lon))

  -- Whether `p` lies on the segment from `a` to `b`.
  unfoldable pub on_segment : Point → Point → Point → Bool
  on_segment p a b =
      lt
        (absolute
          (sub (mul (sub b.lon a.lon) (sub p.lat a.lat)) (mul (sub b.lat a.lat) (sub p.lon a.lon))))
        tiny
      && le (sub (smaller a.lon b.lon) tiny) p.lon
      && le p.lon (add (larger a.lon b.lon) tiny)
      && le (sub (smaller a.lat b.lat) tiny) p.lat
      && le p.lat (add (larger a.lat b.lat) tiny)

  unfoldable pub opposite : Double → Double → Bool
  opposite o1 o2 =
      let zero = of_int (pos 0) in (lt zero o1 && lt o2 zero) || (lt o1 zero && lt zero o2)

  unfoldable pub segments_intersect : Point → Point → Point → Point → Bool
  unfolding cross on_segment opposite
  segments_intersect a b c d =
      let o1 = cross a b c in
      let o2 = cross a b d in
      let o3 = cross c d a in
      let o4 = cross c d b in
      if opposite o1 o2 && opposite o3 o4
      then true
      else (lt (absolute o1) tiny && on_segment c a b)
        || (lt (absolute o2) tiny && on_segment d a b)
        || (lt (absolute o3) tiny && on_segment a c d)
        || (lt (absolute o4) tiny && on_segment b c d)

  unfoldable pub in_no_ring : List (List Point) → Double → Double → Bool
  unfolding ring_contains
  in_no_ring [] x y = true
  in_no_ring (ring ∷ rest) x y = not (ring_contains ring x y) && in_no_ring rest x y

  -- In the first ring, and in no hole.
  unfoldable pub inside_rings : List Point → List (List Point) → Double → Double → Bool
  unfolding ring_contains in_no_ring
  inside_rings outer holes x y = ring_contains outer x y && in_no_ring holes x y

  unfoldable pub point_inside : List Point → List (List Point) → Bounds → List Point → Bool
  unfolding inside_rings
  point_inside outer holes tile [] = false
  point_inside outer holes tile (p ∷ rest) =
      (le tile.west p.lon
        && le p.lon tile.east
        && le tile.south p.lat
        && le p.lat tile.north
        && inside_rings outer holes p.lon p.lat)
      || point_inside outer holes tile rest

  abbrev pub corner : Double → Double → Point
  corner lon lat = record { lon = lon; lat = lat }

  -- The four edges of the tile against a segment.
  unfoldable pub crosses_tile : Point → Point → Bounds → Bool
  unfolding segments_intersect
  crosses_tile a b tile =
      let southwest = corner tile.west tile.south in
      let southeast = corner tile.east tile.south in
      let northeast = corner tile.east tile.north in
      let northwest = corner tile.west tile.north in
      segments_intersect a b southwest southeast
      || segments_intersect a b southeast northeast
      || segments_intersect a b northeast northwest
      || segments_intersect a b northwest southwest

  unfoldable pub ring_crosses : List Point → Bounds → Bool
  unfolding crosses_tile
  ring_crosses [] tile = false
  ring_crosses (a ∷ []) tile = false
  ring_crosses (a ∷ b ∷ rest) tile = crosses_tile a b tile || ring_crosses (b ∷ rest) tile

  unfoldable pub rings_cross : List (List Point) → Bounds → Bool
  unfolding ring_crosses
  rings_cross [] tile = false
  rings_cross (ring ∷ rest) tile = ring_crosses ring tile || rings_cross rest tile

  unfoldable pub meets_rings : List (List Point) → Bounds → Bool
  unfolding point_inside inside_rings rings_cross
  meets_rings [] tile = false
  meets_rings (outer ∷ holes) tile =
      point_inside outer holes tile outer
      || inside_rings outer holes tile.west tile.south
      || inside_rings outer holes tile.west tile.north
      || inside_rings outer holes tile.east tile.south
      || inside_rings outer holes tile.east tile.north
      || rings_cross (outer ∷ holes) tile

  unfoldable pub intersects_polygon : Polygon → Bounds → Bool
  unfolding intersects meets_rings
  intersects_polygon polygon tile =
      intersects polygon.envelope tile && meets_rings polygon.rings tile
