-- ===== src/Platform/Floats.antt =====
-- IEEE 754 arithmetic: `float` and `double` with the operations that the program uses. The laws are
-- those of finite values and of the bit patterns that `memcpy` takes.
use aowis_server_map.Prelude.{ℕ, ◌^◌, ◌<◌, ◌≡◌, Bool, true, false}
use aowis_server_map.Prelude.Int.{ℤ, pos}

pub record Floats : Type 1 where
  pub Double : Type 0
  pub Float : Type 0
  pub is_finite : Double → Bool
  pub is_nan : Double → Bool
  pub lt : Double → Double → Bool
  pub of_int : ℤ → Double
  pub sub : Double → Double → Double
  pub div : Double → Double → Double
  -- `qRound64`
  pub round : Double → ℤ
  -- The conversions between the two types.
  pub widen : Float → Double
  pub narrow : Double → Float
  -- `std::numeric_limits<float>`: `infinity()`, its negation, `quiet_NaN()`, and `max()` as a double.
  pub infinity : Float
  pub neg_infinity : Float
  pub quiet_nan : Float
  pub float_max : Double
  pub float_zero : Float
  pub float_of : ℕ → Float
  pub float_lt : Float → Float → Bool
  pub float_eq : Float → Float → Bool
  pub float_add : Float → Float → Float
  pub float_mul : Float → Float → Float
  -- `memcpy` of a `float` to and from a 32-bit word.
  pub bits : Float → ℕ
  pub of_bits : ℕ → Float
  pub bits_word : (f : Float) → bits f < 2 ^ 32
  pub of_bits-bits : (f : Float) → of_bits (bits f) ≡ f
  pub finite-lt-infinity : (f : Float) → is_finite (widen f) ≡ true → float_lt f infinity ≡ true
  -- A finite double from 0 to the largest `float` is converted to a finite `float` from 0.
  pub narrow_finite :
      (x : Double)
      → is_finite x ≡ true
      → lt x (of_int (pos 0)) ≡ false
      → lt float_max x ≡ false
      → is_finite (widen (narrow x)) ≡ true
  pub narrow_nonneg :
      (x : Double)
      → is_finite x ≡ true
      → lt x (of_int (pos 0)) ≡ false
      → float_lt (narrow x) float_zero ≡ false
