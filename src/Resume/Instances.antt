-- ===== src/Resume/Instances.antt =====
-- A disk and number formats with the laws, for the examples.
use aowis_server_map.Prelude.{
  ℕ, zero, suc, ◌+◌, ◌-◌, ◌*◌, ◌/◌, ◌%◌, ◌^◌, ◌≤◌, ◌<◌, ◌≡◌, ◌≢◌, refl, Bool, true, false, Option,
  some, arith, [], ◌∷◌, ◌++◌, length, length-append, Bytes, Text, All, All-append, eqb,
  if◌then◌else◌, ltb, leb, Bool-cases, inl, inr,
}
use aowis_server_map.Resume.Decimal.{Spells, IsDigit, spelled_after}
use aowis_server_map.Resume.Files.{FileSystem, Format}

abbrev pub save_to : Text → (Text → Option Bytes) → Text → Bytes → (Text → Option Bytes) × Bool
save_to refused d path content =
    if eqb path refused
    then (d, false)
    else ((λ other. if eqb other path then some content else d other), true)

pub saved_lem :
    (refused : Text) (d : Text → Option Bytes) (path other : Text) (content : Bytes)
    → (save_to refused d path content).1 ≡ true
    → (save_to refused d path content).0 other ≡ (if eqb other path then some content else d other)
saved_lem refused d path other content h = ground (arith, h)

pub unsaved_lem :
    (refused : Text) (d : Text → Option Bytes) (path other : Text) (content : Bytes)
    → (save_to refused d path content).1 ≡ false
    → (save_to refused d path content).0 other ≡ d other
unsaved_lem refused d path other content h = ground (arith, h)

-- A disk as a function of the path, where one path cannot be written.
abbrev pub disk_without : Text → FileSystem
disk_without refused = record {
  Disk = Text → Option Bytes;
  read = λ d path. d path;
  save = save_to refused;
  read_saved = saved_lem refused;
  read_unsaved = unsaved_lem refused;
}

abbrev pub digits_of : ℕ → ℕ → Bytes
digits_of zero n = (b'0' + n) ∷ []
digits_of (suc fuel) n =
    let rest = digits_of fuel (n / 10) in
    if ltb n 10 then (b'0' + n) ∷ [] else rest ++ ((b'0' + n % 10) ∷ [])

spelled_after-snoc :
    (v : ℕ) (xs : Bytes) (c : ℕ)
    → spelled_after v (xs ++ (c ∷ [])) ≡ spelled_after v xs * 10 + (c - b'0')
spelled_after-snoc v [] c = refl
spelled_after-snoc v (x ∷ xs) c = spelled_after-snoc (v * 10 + (x - b'0')) xs c

snoc-nonempty : (xs : Bytes) (c : ℕ) → xs ++ (c ∷ []) ≢ []
snoc-nonempty [] c e = cc
snoc-nonempty (x ∷ xs) c e = cc

pub digits_of-Spells : (fuel n : ℕ) → n ≤ fuel → Spells (digits_of fuel n) n
digits_of-Spells zero n h = record { nonempty = λ e. cc; digits = omega arith; value = omega arith }
digits_of-Spells (suc fuel) n h = elim (Bool-cases (ltb n 10)) [
  | inl small ↦
      rw small (record { nonempty = λ e. cc; digits = ground (arith, small); value = omega arith })
  | inr large ↦
      let rest : Spells (digits_of fuel (n / 10)) (n / 10) =
        digits_of-Spells fuel (n / 10) (ground (arith, large)) in
      rw large (record {
        nonempty = snoc-nonempty (digits_of fuel (n / 10)) (b'0' + n % 10);
        digits =
            All-append IsDigit (digits_of fuel (n / 10)) ((b'0' + n % 10) ∷ []) rest.digits
              (omega arith);
        value =
            omega
              (arith, spelled_after-snoc 0 (digits_of fuel (n / 10)) (b'0' + n % 10), rest.value);
      })
]

pub length-digits_of :
    (fuel n k : ℕ) → n ≤ fuel → n < 10 ^ suc k → length (digits_of fuel n) ≤ suc k
length-digits_of zero n k h b = omega arith
length-digits_of (suc fuel) n zero h b = ground (arith, b)
length-digits_of (suc fuel) n (suc k) h b =
    let rest = digits_of fuel (n / 10) in
    ground (
      arith,
      b,
      length-append rest ((b'0' + n % 10) ∷ []),
      length-digits_of fuel (n / 10) k (omega arith) (omega (arith, b)),
    )

abbrev pub hex_digit : ℕ → ℕ
hex_digit d = if ltb d 10 then b'0' + d else 87 + d

abbrev pub hex_value : ℕ → ℕ
hex_value c = if leb c b'9' then c - b'0' else c - 87

abbrev pub to_hex : Bytes → Bytes
to_hex [] = []
to_hex (c ∷ rest) = hex_digit (c / 16) ∷ hex_digit (c % 16) ∷ to_hex rest

abbrev pub from_hex : Bytes → Bytes
from_hex (h ∷ l ∷ rest) = (hex_value h * 16 + hex_value l) ∷ from_hex rest
from_hex _ = []

hex_value-digit : (d : ℕ) → hex_value (hex_digit d) ≡ d
hex_value-digit d = ground arith

pub from_hex-to_hex : (bytes : Bytes) → from_hex (to_hex bytes) ≡ bytes
from_hex-to_hex [] = refl
from_hex-to_hex (c ∷ rest) =
    let same : c / 16 * 16 + c % 16 ≡ c = omega arith in
    rw (hex_value-digit (c / 16), hex_value-digit (c % 16), same, from_hex-to_hex rest)

pub length-to_hex : (bytes : Bytes) → length (to_hex bytes) ≡ 2 * length bytes
length-to_hex [] = refl
length-to_hex (c ∷ rest) = omega (arith, length-to_hex rest)

pub to_hex-digits : (bytes : Bytes) → All (λ c. b'0' ≤ c) (to_hex bytes)
to_hex-digits [] = tt
to_hex-digits (c ∷ rest) = (ground arith, (ground arith, to_hex-digits rest))

abbrev pub decimal_and_hex : Format
decimal_and_hex = record {
  number = λ n. digits_of n n;
  to_hex = to_hex;
  from_hex = from_hex;
  number-Spells = λ n. digits_of-Spells n n (omega arith);
  length-number = λ n k h. length-digits_of n n k (omega arith) h;
  from_hex-to_hex = from_hex-to_hex;
  length-to_hex = length-to_hex;
  to_hex-digits = to_hex-digits;
}
