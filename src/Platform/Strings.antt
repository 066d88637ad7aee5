-- ===== src/Platform/Strings.antt =====
-- `QString`: `trimmed`, `toLower`, `toUtf8` and `fromUtf8`. The laws speak of ASCII only.
use aowis_server_map.Prelude.{
  ℕ, ◌≤◌, ◌<◌, ◌≡◌, Bool, true, ◌||◌, ◌&&◌, arith, [], ◌∷◌, Bytes, Text, All, leb, ◌==◌, ◌⊎◌,
}

-- A visible ASCII unit that is no capital letter.
abbrev pub IsPlain : ℕ → Type 0
IsPlain c = (33 ≤ c) × (c ≤ 126) × ((c < b'A') ⊎ (b'Z' < c))

abbrev pub is_id_byte : ℕ → Bool
is_id_byte c =
    (leb b'a' c && leb c b'z') || (leb b'0' c && leb c b'9') || c == b'-' || c == b'_' || c == b'.'

abbrev pub IsIdByte : ℕ → Type 0
IsIdByte c = is_id_byte c ≡ true

pub record Strings : Type 0 where
  pub trimmed : Text → Text
  pub to_lower : Text → Text
  pub to_utf8 : Text → Bytes
  pub from_utf8 : Bytes → Text
  -- Nothing is trimmed where there is no white space, nor lowered where there is no capital.
  pub trimmed_plain : (s : Text) → All IsPlain s → trimmed s ≡ s
  pub to_lower_plain : (s : Text) → All IsPlain s → to_lower s ≡ s
  -- Bytes of these kinds stand for themselves in UTF-8, in both directions; no other text is encoded
  -- by such bytes alone.
  pub to_utf8_id : (s : Text) → All IsIdByte (to_utf8 s) → to_utf8 s ≡ s
  pub from_utf8_id : (bytes : Bytes) → All IsIdByte bytes → from_utf8 bytes ≡ bytes

pub IsIdByte-IsPlain : (c : ℕ) → IsIdByte c → IsPlain c
IsIdByte-IsPlain c h = ground (arith, h)

pub All-IsPlain : (s : Text) → All IsIdByte s → All IsPlain s
All-IsPlain [] h = tt
All-IsPlain (c ∷ s) h = (IsIdByte-IsPlain c h.0, All-IsPlain s h.1)
