-- ===== src/Tile/Samples.antt =====
-- lib/terrain_tile.cpp: the codes of the samples, written and read.
use aowis_server_map.Prelude.{
  ℕ, zero, suc, ◌+◌, ◌*◌, ◌/◌, ◌%◌, ◌≤◌, ◌<◌, ◌≡◌, refl, sym, ap, Bool, true, false, not, ◌||◌,
  none, arith, List, [], ◌∷◌, ◌++◌, length, Bytes, map, append_assoc, if◌then◌else◌, ◌==◌, inl, inr,
  Bool-cases, length-append,
}
use aowis_server_map.Prelude.Int.{ℤ, pos, negsuc}
use aowis_server_map.Platform.Floats.{Floats}
use aowis_server_map.Tile.Words.{uint16_bytes, byte_at, read_uint16}
use aowis_server_map.Tile.Defs.{finite_float, scan_samples, no_data_code}
use aowis_server_map.Tile.Codec.{clamp_code, sample_code, encode_samples, float_min, minimum_loop}
use aowis_server_map.Tile.Parser.{decode_samples, has_finite_code}

byte_at-append :
    (prefix : Bytes) (c : ℕ) (rest : Bytes) (i : ℕ)
    → length prefix ≡ i
    → byte_at (prefix ++ (c ∷ rest)) i ≡ c
byte_at-append [] c rest zero e = refl
byte_at-append [] c rest (suc i) e = absurd (omega (arith, e))
byte_at-append (x ∷ prefix) c rest zero e = absurd (omega (arith, e))
byte_at-append (x ∷ prefix) c rest (suc i) e = byte_at-append prefix c rest i (omega (arith, e))

-- The word at the end of a prefix.
read_uint16-append :
    (prefix : Bytes) (v : ℕ) (rest : Bytes) (i : ℕ)
    → v < 65536
    → length prefix ≡ i
    → read_uint16 (prefix ++ (uint16_bytes v ++ rest)) i ≡ v
unfolding read_uint16
read_uint16-append prefix v rest i h e =
    let low = byte_at-append prefix (v % 256) ((v / 256 % 256) ∷ rest) i e in
    let shift : prefix ++ ((v % 256) ∷ (v / 256 % 256) ∷ rest)
        ≡ (prefix ++ ((v % 256) ∷ [])) ++ ((v / 256 % 256) ∷ rest) =
      sym (append_assoc prefix ((v % 256) ∷ []) ((v / 256 % 256) ∷ rest)) in
    let high : byte_at (prefix ++ ((v % 256) ∷ (v / 256 % 256) ∷ rest)) (i + 1) ≡ v / 256 % 256 =
      rw shift (
        byte_at-append (prefix ++ ((v % 256) ∷ [])) (v / 256 % 256) rest (i + 1)
          (omega (arith, length-append prefix ((v % 256) ∷ []), e))) in
    omega (arith, low, high)

abbrev pub any_finite : (fl : Floats) → List fl.Float → Bool
any_finite fl [] = false
any_finite fl (e ∷ es) = finite_float fl e || any_finite fl es

module _ (fl : Floats) (low scale : fl.Float) where
  open fl use {
    Double, Float, is_finite, is_nan, widen, round, quiet_nan, infinity, float_lt, float_of,
    float_add, float_mul, finite-lt-infinity,
  }

  -- What the parser makes of the code of a sample.
  abbrev pub restored : Float → Float
  restored e =
      if sample_code fl low scale e == no_data_code
      then quiet_nan
      else float_add low (float_mul (float_of (sample_code fl low scale e)) scale)

  clamp_code-le : (z : ℤ) → clamp_code z ≤ 65534
  clamp_code-le (negsuc n) = omega arith
  clamp_code-le (pos n) = ground arith

  -- Only a sample that is not finite has the code for no data.
  pub sample_code-no_data :
      (e : Float) → (sample_code fl low scale e == no_data_code) ≡ not (finite_float fl e)
  unfolding sample_code
  sample_code-no_data e =
      ground (arith, clamp_code-le (round (fl.div (fl.sub (widen e) (widen low)) (widen scale))))

  pub sample_code-word : (e : Float) → sample_code fl low scale e < 65536
  unfolding sample_code
  sample_code-word e =
      ground (arith, clamp_code-le (round (fl.div (fl.sub (widen e) (widen low)) (widen scale))))

  pub length-encode_samples :
      (es : List Float) → length (encode_samples fl low scale es) ≡ 2 * length es
  unfolding encode_samples
  length-encode_samples [] = refl
  length-encode_samples (e ∷ es) = omega (arith, length-encode_samples es)

  decode-encode_from :
      (es : List Float) (i : ℕ) (prefix : Bytes)
      → length prefix ≡ i * 2
      → decode_samples fl (length es) i (prefix ++ encode_samples fl low scale es) low scale
        ≡ map restored es
  unfolding decode_samples encode_samples
  decode-encode_from [] i prefix h = refl
  decode-encode_from (e ∷ es) i prefix h =
      let code = sample_code fl low scale e in
      let rest = encode_samples fl low scale es in
      let read = read_uint16-append prefix code rest (i * 2) (sample_code-word e) h in
      let shift : prefix ++ (uint16_bytes code ++ rest) ≡ (prefix ++ uint16_bytes code) ++ rest =
        sym (append_assoc prefix (uint16_bytes code) rest) in
      let tail =
        decode-encode_from es (i + 1) (prefix ++ uint16_bytes code)
          (omega (arith, length-append prefix (uint16_bytes code), h)) in
      rw (read, shift) (ap (◌∷◌ (restored e)) tail)

  has_finite-encode_from :
      (es : List Float) (i : ℕ) (prefix : Bytes)
      → length prefix ≡ i * 2
      → has_finite_code fl (length es) i (prefix ++ encode_samples fl low scale es)
        ≡ any_finite fl es
  unfolding has_finite_code encode_samples
  has_finite-encode_from [] i prefix h = refl
  has_finite-encode_from (e ∷ es) i prefix h =
      let code = sample_code fl low scale e in
      let rest = encode_samples fl low scale es in
      let read = read_uint16-append prefix code rest (i * 2) (sample_code-word e) h in
      let shift : prefix ++ (uint16_bytes code ++ rest) ≡ (prefix ++ uint16_bytes code) ++ rest =
        sym (append_assoc prefix (uint16_bytes code) rest) in
      let tail =
        has_finite-encode_from es (i + 1) (prefix ++ uint16_bytes code)
          (omega (arith, length-append prefix (uint16_bytes code), h)) in
      rw (read, shift, tail, sample_code-no_data e)
        (double_negation (finite_float fl e) (any_finite fl es))
    where
      double_negation : (b c : Bool) → not (not b) || c ≡ b || c
      double_negation true c = refl
      double_negation false c = refl

  -- The payload of the samples is read as the restored samples.
  pub decode-encode :
      (es : List Float)
      → (decode_samples fl (length es) 0 (encode_samples fl low scale es) low scale
          ≡ map restored es)
        × (has_finite_code fl (length es) 0 (encode_samples fl low scale es) ≡ any_finite fl es)
  decode-encode es = (decode-encode_from es 0 [] refl, has_finite-encode_from es 0 [] refl)

module _ (fl : Floats) where
  open fl use {Float, infinity, float_lt, finite-lt-infinity}

  -- Samples that the validity test accepts have a finite one, if none came before.
  pub scan_samples-finite :
      (seen : Bool) (es : List Float)
      → scan_samples fl seen es ≡ none
      → any_finite fl es || seen ≡ true
  unfolding scan_samples
  scan_samples-finite seen [] h = ground (arith, h)
  scan_samples-finite seen (e ∷ es) h =
      ground (arith, h, scan_samples-finite (finite_float fl e || seen) es)

  minimum-finite_from :
      (m : Float) (es : List Float)
      → finite_float fl m ≡ true
      → finite_float fl (minimum_loop fl m es) ≡ true
  unfolding minimum_loop
  minimum-finite_from m [] h = h
  minimum-finite_from m (e ∷ es) h =
      minimum-finite_from (if finite_float fl e then float_min fl m e else m) es (ground (arith, h))

  -- The smallest finite sample is finite, if there is one.
  pub minimum-finite :
      (es : List Float)
      → any_finite fl es ≡ true
      → finite_float fl (minimum_loop fl infinity es) ≡ true
  unfolding minimum_loop
  minimum-finite [] h = ground (arith, h)
  minimum-finite (e ∷ es) h = elim (Bool-cases (finite_float fl e)) [
    | inl f ↦
        let less : float_lt e infinity ≡ true = finite-lt-infinity e (unfold finite_float in f) in
        rw (f, less) (minimum-finite_from e es f)
    | inr f ↦ rw f (minimum-finite es (rw f at h))
  ]
