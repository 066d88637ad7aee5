-- ===== src/Resume/Search.antt =====
-- `QByteArray`'s searches, as the resume code uses them, with their laws.
use aowis_server_map.Prelude.{
  ℕ, zero, suc, ◌≤◌, ◌≡◌, ◌≢◌, refl, ap, Bool, true, false, ◌||◌, ◌&&◌, Option, none, some, arith,
  List, [], ◌∷◌, ◌++◌, length, Bytes, drop, take, All, if◌then◌else◌, ◌==◌, ==-self, inl, inr,
  Bool-cases,
}

abbrev bump : Option ℕ → Option ℕ
bump none = none
bump (some i) = some (suc i)

-- `indexOf`, where -1 is `none`.
unfoldable pub index_of : ℕ → Bytes → Option ℕ
index_of c [] = none
index_of c (x ∷ xs) = if x == c then some 0 else bump (index_of c xs)

unfoldable pub contains : ℕ → Bytes → Bool
contains c [] = false
contains c (x ∷ xs) = x == c || contains c xs

unfoldable pub starts_with : Bytes → Bytes → Bool
starts_with [] xs = true
starts_with (p ∷ ps) [] = false
starts_with (p ∷ ps) (x ∷ xs) = p == x && starts_with ps xs

-- `split`: there is always one part at least.
unfoldable pub split : ℕ → Bytes → List Bytes
split c [] = [] ∷ []
split c (x ∷ xs) = elim (split c xs) [
  | [] ↦ []
  | part ∷ parts ↦ if x == c then [] ∷ (part ∷ parts) else (x ∷ part) ∷ parts
]

-- The text has no such byte.
abbrev pub Lacks : ℕ → Bytes → Type 0
Lacks c xs = All (λ x. x ≢ c) xs

pub index_of-append :
    (c : ℕ) (xs ys : Bytes) → Lacks c xs → index_of c (xs ++ (c ∷ ys)) ≡ some (length xs)
unfolding index_of
index_of-append c [] ys h = rw (==-self c)
index_of-append c (x ∷ xs) ys h = ground (arith, index_of-append c xs ys h.1, h.0)

pub index_of-Lacks : (c : ℕ) (xs : Bytes) → Lacks c xs → index_of c xs ≡ none
unfolding index_of
index_of-Lacks c [] h = refl
index_of-Lacks c (x ∷ xs) h = ground (arith, index_of-Lacks c xs h.1, h.0)

-- What a found index says of the text.
pub index_of-splits :
    (c : ℕ) (xs : Bytes) (i : ℕ)
    → index_of c xs ≡ some i
    → (xs ≡ take i xs ++ (c ∷ drop (suc i) xs)) × (length (take i xs) ≡ i) × (suc i ≤ length xs)
unfolding index_of
index_of-splits c [] i h = ground arith
index_of-splits c (x ∷ xs) zero h = elim (Bool-cases (x == c)) [
  | inl e ↦ (ground (arith, e), refl, omega arith)
  | inr e ↦ absurd (not_zero (index_of c xs) (rw e at h))
]
  where
    not_zero : (o : Option ℕ) → bump o ≢ some 0
    not_zero none k = cc
    not_zero (some j) k = ground arith
index_of-splits c (x ∷ xs) (suc i) h = elim (Bool-cases (x == c)) [
  | inl e ↦ absurd (ground (arith, rw e at h))
  | inr e ↦
      let (whole, at, inside) = index_of-splits c xs i (unbump (index_of c xs) (rw e at h)) in
      (ap (◌∷◌ x) whole, ap suc at, omega arith)
]
  where
    unbump : (o : Option ℕ) → bump o ≡ some (suc i) → o ≡ some i
    unbump none k = ground arith
    unbump (some j) k = ground arith

pub starts_with-append : (ps xs : Bytes) → starts_with ps (ps ++ xs) ≡ true
unfolding starts_with
starts_with-append [] xs = refl
starts_with-append (p ∷ ps) xs = rw (==-self p) (starts_with-append ps xs)

pub starts_with-splits : (ps xs : Bytes) → starts_with ps xs ≡ true → xs ≡ ps ++ drop (length ps) xs
unfolding starts_with
starts_with-splits [] xs h = refl
starts_with-splits (p ∷ ps) [] h = ground arith
starts_with-splits (p ∷ ps) (x ∷ xs) h = ground (arith, starts_with-splits ps xs)

split-cons : (c : ℕ) (xs : Bytes) → (p : Bytes) × (ps : List Bytes) × (split c xs ≡ p ∷ ps)
unfolding split
split-cons c [] = ([], [], refl)
split-cons c (x ∷ xs) =
    let (p, ps, e) = split-cons c xs in
    elim (Bool-cases (x == c)) [ inl t ↦ ([], p ∷ ps, rw (e, t)) | inr t ↦ (x ∷ p, ps, rw (e, t)) ]

pub split-append : (c : ℕ) (xs ys : Bytes) → Lacks c xs → split c (xs ++ (c ∷ ys)) ≡ xs ∷ split c ys
unfolding split
split-append c [] ys h = let (p, ps, e) = split-cons c ys in rw (e, ==-self c)
split-append c (x ∷ xs) ys h = rw (split-append c xs ys h.1) (ground (arith, h.0))
