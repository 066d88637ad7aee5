-- ===== src/Server/Tokens.antt =====
-- server/server.cpp: which key has a cancellation token, when keys are removed and tokens given.
use aowis_server_map.Prelude.{
  ℕ, ◌<◌, ◌≤◌, ◌≡◌, refl, sym, subst, true, false, some, List, [], ◌∷◌, All, ◌==◌, arith, ◌⊎◌, inl,
  inr, Bool-cases,
}
use aowis_server_map.Server.State.{Key, same_key, value_of, remove_key}
use aowis_server_map.Server.Counts.{same_key→eq, same_key_self}

-- No key has the token.
abbrev pub Without : ℕ → List (Key × ℕ) → Type 0
Without t tokens = All (λ e. (e.1 == t) ≡ false) tokens

-- The key has the token, and no other does.
abbrev pub Single : Key → ℕ → List (Key × ℕ) → Type 0
Single key t [] = ⊥
Single key t ((k, v) ∷ rest) =
    ((k ≡ key) × (v ≡ t) × Without t rest)
    ⊎ ((same_key k key ≡ false) × ((v == t) ≡ false) × Single key t rest)

abbrev pub Placed : List (Key × ℕ) → Key → ℕ → Type 0
Placed tokens key t = Single key t tokens ⊎ Without t tokens

pub Without-remove_key :
    (t : ℕ) (key : Key) (l : List (Key × ℕ)) → Without t l → Without t (remove_key key l)
unfolding remove_key
Without-remove_key t key [] h = tt
Without-remove_key t key ((k, v) ∷ l) h = elim (Bool-cases (same_key k key)) [
  | inl e ↦ rw e h.1
  | inr e ↦ rw e (h.0, Without-remove_key t key l h.1)
]

Single-remove_key :
    (t : ℕ) (key other : Key) (l : List (Key × ℕ))
    → Single key t l
    → Placed (remove_key other l) key t
unfolding remove_key
Single-remove_key t key other [] h = absurd h
Single-remove_key t key other ((k, v) ∷ l) (inl (same, value, rest)) =
    elim (Bool-cases (same_key k other)) [
      | inl e ↦ rw e (inr rest)
      | inr e ↦ rw e (inl (inl (same, value, Without-remove_key t other l rest)))
    ]
Single-remove_key t key other ((k, v) ∷ l) (inr (apart, value, rest)) =
    elim (Bool-cases (same_key k other)) [
      | inl e ↦ rw e (inl rest)
      | inr e ↦ rw e (elim (Single-remove_key t key other l rest) [
        | inl h ↦ inl (inr (apart, value, h))
        | inr h ↦ inr (value, h)
      ])
    ]

pub Placed-remove_key :
    (t : ℕ) (key other : Key) (l : List (Key × ℕ))
    → Placed l key t
    → Placed (remove_key other l) key t
Placed-remove_key t key other l (inl h) = Single-remove_key t key other l h
Placed-remove_key t key other l (inr h) = inr (Without-remove_key t other l h)

-- A key without a single token of its own: the token is nowhere.
Without-removed :
    (t : ℕ) (key : Key) (l : List (Key × ℕ)) → Placed l key t → Without t (remove_key key l)
unfolding remove_key
Without-removed t key l (inr h) = Without-remove_key t key l h
Without-removed t key [] (inl h) = absurd h
Without-removed t key ((k, v) ∷ l) (inl (inl (same, value, rest))) =
    let e : same_key k key ≡ true = subst (λ o. same_key k o ≡ true) same (same_key_self k) in
    rw e rest
Without-removed t key ((k, v) ∷ l) (inl (inr (apart, value, rest))) =
    rw apart (value, Without-removed t key l (inl rest))

pub Placed-launch :
    (t fresh : ℕ) (key other : Key) (l : List (Key × ℕ))
    → t < fresh
    → Placed l key t
    → Placed ((other, fresh) ∷ remove_key other l) key t
Placed-launch t fresh key other l older h = elim (Bool-cases (same_key other key)) [
  | inl e ↦ inr (
    ground (arith, older),
    subst (λ o. Without t (remove_key o l)) (sym (same_key→eq other key e))
        (Without-removed t key l h),
  )
  | inr e ↦ elim (Placed-remove_key t key other l h) [
    | inl f ↦ inl (inr (e, ground (arith, older), f))
    | inr f ↦ inr (ground (arith, older), f)
  ]
]

pub value_of-Single :
    (t : ℕ) (key : Key) (l : List (Key × ℕ)) → Single key t l → value_of key l ≡ some t
unfolding value_of
value_of-Single t key [] h = absurd h
value_of-Single t key ((k, v) ∷ l) (inl (same, value, rest)) =
    let e : same_key k key ≡ true = subst (λ o. same_key k o ≡ true) same (same_key_self k) in
    rw (e, value) refl
value_of-Single t key ((k, v) ∷ l) (inr (apart, value, rest)) =
    rw apart (value_of-Single t key l rest)

-- The tokens that are given next are not there yet.
pub Issued-Without : (t : ℕ) (l : List (Key × ℕ)) → All (λ e. e.1 < t) l → Without t l
Issued-Without t [] h = tt
Issued-Without t (e ∷ l) h = (ground (arith, h.0), Issued-Without t l h.1)

pub Issued-remove_key :
    (m : ℕ) (key : Key) (l : List (Key × ℕ))
    → All (λ e. e.1 < m) l
    → All (λ e. e.1 < m) (remove_key key l)
unfolding remove_key
Issued-remove_key m key [] h = tt
Issued-remove_key m key ((k, v) ∷ l) h = elim (Bool-cases (same_key k key)) [
  | inl e ↦ rw e h.1
  | inr e ↦ rw e (h.0, Issued-remove_key m key l h.1)
]

pub Issued-later :
    (m m' : ℕ) (l : List (Key × ℕ)) → m ≤ m' → All (λ e. e.1 < m) l → All (λ e. e.1 < m') l
Issued-later m m' [] later h = tt
Issued-later m m' (e ∷ l) later h = (omega (arith, later, h.0), Issued-later m m' l later h.1)
