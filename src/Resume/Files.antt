-- ===== src/Resume/Files.antt =====
-- What the resume code relies on outside the repository: files, read by `QFile` and replaced by
-- `QSaveFile`, and `QByteArray`'s decimal and hexadecimal forms.
use aowis_server_map.Prelude.{
  ℕ, zero, suc, ◌+◌, ◌-◌, ◌*◌, ◌^◌, ◌≤◌, ◌<◌, ◌≡◌, refl, ap, Bool, true, false, Option, none, some,
  arith, [], ◌∷◌, ◌++◌, length, Bytes, Text, drop, take, All, is_empty, eqb, append_assoc,
  append-nil, min, if◌then◌else◌, leb, ◌==◌, inl, inr, Bool-cases, length-take, length-drop,
}
use aowis_server_map.Resume.Decimal.{Spells}

-- `read` is the contents of a readable regular file. `save` opens a `QSaveFile`, writes the whole
-- data and commits: it fails at any of these points, and then the old contents stay.
pub record FileSystem : Type 1 where
  pub Disk : Type 0
  pub read : Disk → Text → Option Bytes
  pub save : Disk → Text → Bytes → Disk × Bool
  pub read_saved :
      (d : Disk) (path other : Text) (content : Bytes)
      → (save d path content).1 ≡ true
      → read (save d path content).0 other ≡ (if eqb other path then some content else read d other)
  pub read_unsaved :
      (d : Disk) (path other : Text) (content : Bytes)
      → (save d path content).1 ≡ false
      → read (save d path content).0 other ≡ read d other

-- `QByteArray::number`, `toHex` and `fromHex`. A number has no leading zeros; hexadecimal takes two
-- digits for a byte.
pub record Format : Type 0 where
  pub number : ℕ → Bytes
  pub to_hex : Bytes → Bytes
  pub from_hex : Bytes → Bytes
  pub number-Spells : (n : ℕ) → Spells (number n) n
  pub length-number : (n k : ℕ) → n < 10 ^ suc k → length (number n) ≤ suc k
  pub from_hex-to_hex : (bytes : Bytes) → from_hex (to_hex bytes) ≡ bytes
  pub length-to_hex : (bytes : Bytes) → length (to_hex bytes) ≡ 2 * length bytes
  pub to_hex-digits : (bytes : Bytes) → All (λ c. b'0' ≤ c) (to_hex bytes)

-- `source.read` in pieces of at most `piece` bytes until `remaining` bytes are copied: the result is
-- what was appended to `copied`, and an empty piece is the failure. Each piece takes a byte at
-- least, so `remaining` rounds are enough fuel.
unfoldable pub copy_bytes : ℕ → ℕ → Bytes → ℕ → Bytes → Option Bytes
copy_bytes zero piece source remaining copied = if remaining == 0 then some copied else none
copy_bytes (suc fuel) piece source remaining copied =
    let chunk = take (min remaining piece) source in
    let rest =
      copy_bytes fuel piece (drop (length chunk) source) (remaining - length chunk)
        (copied ++ chunk) in
    if remaining == 0 then some copied else if is_empty chunk then none else rest

take-split : (m n : ℕ) (xs : Bytes) → take m xs ++ take (n - m) (drop m xs) ≡ take (m + (n - m)) xs
take-split zero n xs = let e : 0 + (n - 0) ≡ n - 0 = omega arith in rw e
take-split (suc m) n [] = nil-take (n - suc m) (suc m + (n - suc m))
  where
    nil-take : (j k : ℕ) → take {A = ℕ} j [] ≡ take {A = ℕ} k []
    nil-take zero zero = refl
    nil-take zero (suc k) = refl
    nil-take (suc j) zero = refl
    nil-take (suc j) (suc k) = refl
take-split (suc m) zero (x ∷ xs) =
    let e : suc m + (0 - suc m) ≡ suc (m + (0 - m)) = omega arith in
    let e' : 0 - suc m ≡ 0 - m = omega arith in rw (e, e') (ap (◌∷◌ x) (take-split m zero xs))
take-split (suc m) (suc n) (x ∷ xs) =
    let e : suc m + (suc n - suc m) ≡ suc (m + (n - m)) = omega arith in
    let e' : suc n - suc m ≡ n - m = omega arith in rw (e, e') (ap (◌∷◌ x) (take-split m n xs))

take-beyond : (n : ℕ) (xs : Bytes) → length xs ≤ n → take n xs ≡ xs
take-beyond zero [] h = refl
take-beyond zero (x ∷ xs) h = absurd (omega arith)
take-beyond (suc n) [] h = refl
take-beyond (suc n) (x ∷ xs) h = ap (◌∷◌ x) (take-beyond n xs (omega arith))

is_empty-length : (xs : Bytes) → is_empty xs ≡ (length xs == 0)
is_empty-length [] = refl
is_empty-length (x ∷ xs) = ground arith

-- What the loop gives for a source, said without the loop.
abbrev copied_from : Bytes → ℕ → Bytes → Option Bytes
copied_from source remaining copied =
    if leb remaining (length source) then some (copied ++ take remaining source) else none

-- One round: a piece, and then the rest of the source.
copied_from-step :
    (m : ℕ) (source : Bytes) (remaining : ℕ) (copied : Bytes)
    → 0 < m
    → m ≤ remaining
    → let chunk = take m source in
      (if is_empty chunk
        then none
        else copied_from (drop (length chunk) source) (remaining - length chunk) (copied ++ chunk))
      ≡ copied_from source remaining copied
copied_from-step m source remaining copied p h = elim (Bool-cases (leb m (length source))) [
  | inl e ↦
      let len : length (take m source) ≡ m = ground (arith, length-take m source, e) in
      let filled : is_empty (take m source) ≡ false =
        ground (arith, is_empty-length (take m source), len) in
      let sum : m + (remaining - m) ≡ remaining = omega arith in
      rw
        (
          filled,
          len,
          append_assoc copied (take m source) (take (remaining - m) (drop m source)),
          take-split m remaining source,
          sum,
          length-drop m source,
        )
        (ground (arith, e))
  | inr e ↦
      let whole : take m source ≡ source = take-beyond m source (ground (arith, e)) in
      rw (whole, length-drop (length source) source) (ground (arith, e))
]

-- The loop copies the asked bytes if the source has them, and otherwise fails.
pub copy_bytes_lem :
    (fuel piece : ℕ) (source : Bytes) (remaining : ℕ) (copied : Bytes)
    → 0 < piece
    → remaining ≤ fuel
    → copy_bytes fuel piece source remaining copied
      ≡ (if leb remaining (length source) then some (copied ++ take remaining source) else none)
unfolding copy_bytes
copy_bytes_lem zero piece source zero copied p h = simp append-nil (ground arith)
copy_bytes_lem zero piece source (suc n) copied p h = absurd (omega arith)
copy_bytes_lem (suc fuel) piece source zero copied p h = simp append-nil (ground arith)
copy_bytes_lem (suc fuel) piece source (suc n) copied p h =
    let m : ℕ = min (suc n) piece in
    let chunk : Bytes = take m source in
    ground (
      arith,
      is_empty-length chunk,
      copy_bytes_lem fuel piece (drop (length chunk) source) (suc n - length chunk)
          (copied ++ chunk) p,
      copied_from-step m source (suc n) copied (omega arith) (omega arith),
    )
