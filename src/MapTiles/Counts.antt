-- ===== src/MapTiles/Counts.antt =====
-- lib/maptiles.cpp: how often a key stands in a set, among downloads and among clients, and what each
-- operation of the sets and hashes does to the counts.
use aowis_server_map.Prelude.{
  ℕ, ◌+◌, ◌≡◌, refl, ap, Bool, true, false, List, [], ◌∷◌, ◌++◌, Text, eqb, eqb→eq, if◌then◌else◌,
  arith, length, ltb,
}
use aowis_server_map.MapTiles.Sets.{contains, insert, remove, value_or, put, drop_key}
use aowis_server_map.MapTiles.State.{QueuedDownload, Client}

abbrev pub bit : Bool → ℕ
bit true = 1
bit false = 0

unfoldable pub count : Text → List Text → ℕ
count k [] = 0
count k (x ∷ xs) = bit (eqb x k) + count k xs

unfoldable pub count_downloads : Text → List QueuedDownload → ℕ
count_downloads k [] = 0
count_downloads k (d ∷ rest) = bit (eqb d.canonical_key k) + count_downloads k rest

unfoldable pub count_clients : Text → List Client → ℕ
count_clients k [] = 0
count_clients k (c ∷ rest) = bit (eqb c.download.canonical_key k) + count_clients k rest

pub eqb_trans : (a b c : Text) → eqb a b ≡ true → eqb a c ≡ eqb b c
eqb_trans a b c h = ap (λ t. eqb t c) (eqb→eq a b h)

pub eqb_join : (a b c : Text) → eqb a b ≡ true → eqb c a ≡ eqb c b
eqb_join a b c h = ap (λ t. eqb c t) (eqb→eq a b h)

pub contains_iff : (k : Text) (xs : List Text) → contains k xs ≡ ltb 0 (count k xs)
unfolding contains count
contains_iff k [] = refl
contains_iff k (x ∷ xs) = ground (arith, contains_iff k xs)

pub count-append : (k : Text) (xs ys : List Text) → count k (xs ++ ys) ≡ count k xs + count k ys
unfolding count
count-append k [] ys = omega arith
count-append k (x ∷ xs) ys = omega (arith, count-append k xs ys)

pub count-insert :
    (k j : Text) (xs : List Text)
    → count j xs ≡ 0
    → count k (insert j xs) ≡ count k xs + bit (eqb j k)
unfolding insert count
count-insert k j xs h = ground (arith, h, contains_iff j xs, count-append k xs (j ∷ []))

pub length-insert :
    (j : Text) (xs : List Text) → count j xs ≡ 0 → length (insert j xs) ≡ length xs + 1
unfolding insert
length-insert j xs h = ground (arith, h, contains_iff j xs, length_snoc xs)
  where
    length_snoc : (ys : List Text) → length (ys ++ (j ∷ [])) ≡ length ys + 1
    length_snoc [] = refl
    length_snoc (y ∷ ys) = omega (arith, length_snoc ys)

pub count-remove :
    (k j : Text) (xs : List Text) → count k (remove j xs) ≡ (if eqb j k then 0 else count k xs)
unfolding remove count
count-remove k j [] = ground arith
count-remove k j (x ∷ xs) = ground (arith, count-remove k j xs, eqb_trans x j k, eqb_join j k x)

pub length-remove : (j : Text) (xs : List Text) → length (remove j xs) + count j xs ≡ length xs
unfolding remove count
length-remove j [] = refl
length-remove j (x ∷ xs) = ground (arith, length-remove j xs)

module _ {ℓ} {V : Type ℓ} where
  pub value_or-put :
      (k j : Text) (d v : V) (l : List (Text × V))
      → value_or k d (put j v l) ≡ (if eqb j k then v else value_or k d l)
  unfolding value_or put
  value_or-put k j d v [] = refl
  value_or-put k j d v ((i, w) ∷ l) =
      ground (arith, value_or-put k j d v l, eqb_trans i j k, eqb_join j k i)

  pub value_or-drop_key :
      (k j : Text) (d : V) (l : List (Text × V))
      → value_or k d (drop_key j l) ≡ (if eqb j k then d else value_or k d l)
  unfolding value_or drop_key
  value_or-drop_key k j d [] = ground arith
  value_or-drop_key k j d ((i, w) ∷ l) =
      ground (arith, value_or-drop_key k j d l, eqb_trans i j k, eqb_join j k i)

-- A download is among those that it was taken from.
pub count_downloads-append :
    (k : Text) (xs ys : List QueuedDownload)
    → count_downloads k (xs ++ ys) ≡ count_downloads k xs + count_downloads k ys
unfolding count_downloads
count_downloads-append k [] ys = omega arith
count_downloads-append k (x ∷ xs) ys = omega (arith, count_downloads-append k xs ys)

pub count_clients-append :
    (k : Text) (xs ys : List Client)
    → count_clients k (xs ++ ys) ≡ count_clients k xs + count_clients k ys
unfolding count_clients
count_clients-append k [] ys = omega arith
count_clients-append k (x ∷ xs) ys = omega (arith, count_clients-append k xs ys)

-- Counts at equal keys agree.
pub count_same : (j k : Text) (xs : List Text) → eqb j k ≡ true → count j xs ≡ count k xs
count_same j k xs h = ap (λ t. count t xs) (eqb→eq j k h)

pub value_same {ℓ} :
    {V : Type ℓ} (j k : Text) (d : V) (l : List (Text × V))
    → eqb j k ≡ true
    → value_or j d l ≡ value_or k d l
value_same j k d l h = ap (λ t. value_or t d l) (eqb→eq j k h)
