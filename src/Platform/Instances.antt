-- ===== src/Platform/Instances.antt =====
-- Small arithmetic and strings with the laws, for the examples. `Small` has the `float` values 0 and
-- 1 and those that are not finite; a double that is finite is an integer.
use aowis_server_map.Prelude.{
  ℕ, zero, suc, ◌+◌, ◌^◌, ◌<◌, ◌≡◌, refl, ap, ◌∙◌, Bool, true, false, ◌&&◌, ◌||◌, arith, [], ◌∷◌,
  Text, All, map, not, List, ◌++◌, Bytes, eqb, eqb_self, is_empty, if◌then◌else◌, leb, ◌==◌,
}
use aowis_server_map.Prelude.Int.{ℤ, pos, negsuc, ltb_ℤ, leb_ℤ}
use aowis_server_map.Platform.Doubles.{Doubles}
use aowis_server_map.Platform.Sampling.{Sampling}
use aowis_server_map.Platform.Storage.{Storage, Found, missing, readable}
use aowis_server_map.Platform.Strings.{Strings, IsPlain}
use aowis_server_map.Platform.Floats.{Floats}

pub data Small : Type 0 where
  f_zero f_one f_infinity f_neg_infinity f_nan : Small

pub data Wide : Type 0 where
  finite : ℤ → Wide
  d_infinity d_neg_infinity d_nan : Wide

abbrev pub is_finite : Wide → Bool
is_finite (finite z) = true
is_finite _ = false

abbrev pub is_nan : Wide → Bool
is_nan d_nan = true
is_nan _ = false

abbrev pub lt : Wide → Wide → Bool
lt (finite a) (finite b) = ltb_ℤ a b
lt (finite a) d_infinity = true
lt d_neg_infinity (finite b) = true
lt d_neg_infinity d_infinity = true
lt _ _ = false

abbrev pub widen : Small → Wide
widen f_zero = finite (pos 0)
widen f_one = finite (pos 1)
widen f_infinity = d_infinity
widen f_neg_infinity = d_neg_infinity
widen f_nan = d_nan

abbrev pub narrow : Wide → Small
narrow (finite (pos (suc n))) = f_one
narrow (finite _) = f_zero
narrow d_infinity = f_infinity
narrow d_neg_infinity = f_neg_infinity
narrow d_nan = f_nan

abbrev pub value : Wide → ℤ
value (finite z) = z
value _ = pos 0

abbrev pub bits : Small → ℕ
bits f_zero = 0
bits f_one = 1
bits f_infinity = 2
bits f_neg_infinity = 3
bits f_nan = 4

abbrev pub of_bits : ℕ → Small
of_bits zero = f_zero
of_bits (suc zero) = f_one
of_bits (suc (suc zero)) = f_infinity
of_bits (suc (suc (suc zero))) = f_neg_infinity
of_bits _ = f_nan

abbrev pub apart : Wide → Wide → ℤ
apart a b = if lt b a then pos 1 else pos 0

pub bits_word : (f : Small) → bits f < 2 ^ 32
bits_word f = ground arith

pub of_bits-bits : (f : Small) → of_bits (bits f) ≡ f
of_bits-bits f_zero = refl
of_bits-bits f_one = refl
of_bits-bits f_infinity = refl
of_bits-bits f_neg_infinity = refl
of_bits-bits f_nan = refl

pub finite-lt-infinity : (f : Small) → is_finite (widen f) ≡ true → lt (widen f) d_infinity ≡ true
finite-lt-infinity f h = ground (arith, h)

pub narrow_finite : (x : Wide) → is_finite x ≡ true → is_finite (widen (narrow x)) ≡ true
narrow_finite (finite (pos zero)) h = refl
narrow_finite (finite (pos (suc n))) h = refl
narrow_finite (finite (negsuc n)) h = refl
narrow_finite d_infinity h = h
narrow_finite d_neg_infinity h = h
narrow_finite d_nan h = h

pub narrow_nonneg : (x : Wide) → is_finite x ≡ true → lt (widen (narrow x)) (finite (pos 0)) ≡ false
narrow_nonneg (finite (pos zero)) h = refl
narrow_nonneg (finite (pos (suc n))) h = refl
narrow_nonneg (finite (negsuc n)) h = refl
narrow_nonneg d_infinity h = refl
narrow_nonneg d_neg_infinity h = ground (arith, h)
narrow_nonneg d_nan h = refl

abbrev pub is_zero : Small → Bool
is_zero f_zero = true
is_zero _ = false

abbrev pub small_floats : Floats
small_floats = record {
  Double = Wide;
  Float = Small;
  is_finite = is_finite;
  is_nan = is_nan;
  lt = lt;
  of_int = finite;
  sub = λ a b. finite (apart a b);
  div = λ a b. a;
  round = value;
  widen = widen;
  narrow = narrow;
  infinity = f_infinity;
  neg_infinity = f_neg_infinity;
  quiet_nan = f_nan;
  float_max = finite (pos 1);
  float_zero = f_zero;
  float_of = λ n. if n == 0 then f_zero else f_one;
  float_lt = λ a b. lt (widen a) (widen b);
  float_eq = λ a b. bits a == bits b;
  float_add = λ a b. if is_zero a then b else a;
  float_mul = λ a b. if is_zero a then a else b;
  bits = bits;
  of_bits = of_bits;
  bits_word = bits_word;
  of_bits-bits = of_bits-bits;
  finite-lt-infinity = finite-lt-infinity;
  narrow_finite = λ x h _ _. narrow_finite x h;
  narrow_nonneg = λ x h _. narrow_nonneg x h;
}

abbrev pub is_space : ℕ → Bool
is_space c = c == 32 || (leb 9 c && leb c 13)

abbrev pub trim_left : Text → Text
trim_left [] = []
trim_left (c ∷ s) = if is_space c then trim_left s else c ∷ s

abbrev pub trim_right : Text → Text
trim_right [] = []
trim_right (c ∷ s) = let rest = trim_right s in if is_empty rest && is_space c then [] else c ∷ rest

abbrev pub lower : ℕ → ℕ
lower c = if leb b'A' c && leb c b'Z' then c + 32 else c

pub trim_left-plain : (s : Text) → All IsPlain s → trim_left s ≡ s
trim_left-plain [] h = refl
trim_left-plain (c ∷ s) h = ground (arith, h.0)

pub trim_right-plain : (s : Text) → All IsPlain s → trim_right s ≡ s
trim_right-plain [] h = refl
trim_right-plain (c ∷ s) h =
    let plain : is_space c ≡ false = ground (arith, h.0) in
    rw (trim_right-plain s h.1, plain) (ground arith)

pub lower-plain : (s : Text) → All IsPlain s → map lower s ≡ s
lower-plain [] h = refl
lower-plain (c ∷ s) h =
    let plain : lower c ≡ c = ground (arith, h.0) in rw (plain, lower-plain s h.1)

-- Strings of ASCII units.
abbrev pub ascii : Strings
ascii = record {
  trimmed = λ s. trim_right (trim_left s);
  to_lower = map lower;
  to_utf8 = λ s. s;
  from_utf8 = λ s. s;
  trimmed_plain = λ s h. ap trim_right (trim_left-plain s h) ∙ trim_right-plain s h;
  to_lower_plain = lower-plain;
  to_utf8_id = λ s h. refl;
  from_utf8_id = λ s h. refl;
}

-- Integers whose sums, products and functions are one of the operands.
abbrev pub whole : Doubles
whole = record {
  Double = ℤ;
  of_int = λ z. z;
  tiny = pos 0;
  pi = pos 3;
  is_finite = λ z. true;
  lt = ltb_ℤ;
  le = leb_ℤ;
  add = λ a b. a;
  sub = λ a b. a;
  mul = λ a b. b;
  div = λ a b. a;
  absolute = λ z. z;
  smaller = λ a b. a;
  larger = λ a b. a;
  sinh = λ z. z;
  atan = λ z. z;
  to_degrees = λ z. z;
}

-- Sampling with products of 0.
abbrev pub small_sampling : Sampling small_floats
small_sampling = record {
  le = λ a b. not (lt b a);
  add = λ a b. a;
  mul = λ a b. finite (pos 0);
  pi = finite (pos 3);
  half = finite (pos 0);
  epsilon = finite (pos 0);
  maximum_latitude = finite (pos 85);
  floor = value;
  asinh = λ x. x;
  tan = λ x. x;
}

abbrev pub found_in : List (Text × Bytes) → Text → Found
found_in [] path = missing
found_in ((name, bytes) ∷ rest) path = if eqb name path then readable bytes else found_in rest path

pub saved_found :
    (w : List (Text × Bytes)) (path : Text) (bytes : Bytes)
    → found_in ((path, bytes) ∷ w) path ≡ readable bytes
saved_found w path bytes = rw (eqb_self path) refl

-- Files in a list; every directory is there, and nothing fails.
abbrev pub listed : Storage
listed = record {
  World = List (Text × Bytes);
  look = found_in;
  is_directory = λ w path. true;
  make_directory = λ w path. (w, true);
  save = λ w path bytes. ((path, bytes) ∷ w, true);
  try_lock = λ w path. (w, true);
  unlock = λ w path. w;
  directory_of = λ path. path;
  file_path = λ directory name. directory ++ name;
  clean_path = λ path. path;
  number = λ n. n ∷ [];
  look_saved = λ w path bytes h. saved_found w path bytes;
  look_unlocked = λ w path. refl;
}
