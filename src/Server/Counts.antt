-- ===== src/Server/Counts.antt =====
-- server/server.cpp: sums over the waiters of all keys, and what each operation on the hashes does to
-- them.
use aowis_server_map.Prelude.{
  ℕ, ◌≡◌, refl, subst, ◌∙◌, true, false, ◌&&◌, List, [], ◌∷◌, All, eqb→eq, eqb_self, is_empty,
  arith, Bool-cases, inl, inr,
}
use aowis_server_map.Server.State.{
  Registry, tiles, elevations, grids, map_tiles, same_registry, Key, same_key, contains_key,
  remove_key, waiters_of, append_waiter,
}
use aowis_server_map.Server.Waiters.{Parted, part_waiters, sweep}

same_registry→eq : (a b : Registry) → same_registry a b ≡ true → a ≡ b
same_registry→eq tiles tiles h = refl
same_registry→eq elevations elevations h = refl
same_registry→eq grids grids h = refl
same_registry→eq map_tiles map_tiles h = refl
same_registry→eq map_tiles tiles h = ground (arith, h)
same_registry→eq map_tiles elevations h = ground (arith, h)
same_registry→eq map_tiles grids h = ground (arith, h)
same_registry→eq tiles map_tiles h = ground (arith, h)
same_registry→eq elevations map_tiles h = ground (arith, h)
same_registry→eq grids map_tiles h = ground (arith, h)
same_registry→eq tiles elevations h = ground (arith, h)
same_registry→eq tiles grids h = ground (arith, h)
same_registry→eq elevations tiles h = ground (arith, h)
same_registry→eq elevations grids h = ground (arith, h)
same_registry→eq grids tiles h = ground (arith, h)
same_registry→eq grids elevations h = ground (arith, h)

pub same_key→eq : (a b : Key) → same_key a b ≡ true → a ≡ b
unfolding same_key
same_key→eq a b h = ground (arith, h, same_registry→eq a.registry b.registry, eqb→eq a.text b.text)

pub same_key_self : (a : Key) → same_key a a ≡ true
unfolding same_key
same_key_self a = rw eqb_self (registry_self a.registry)
  where
    registry_self : (r : Registry) → same_registry r r && true ≡ true
    registry_self tiles = refl
    registry_self elevations = refl
    registry_self grids = refl
    registry_self map_tiles = refl

pub same_key_flip : (a b : Key) → same_key a b ≡ false → same_key b a ≡ false
same_key_flip a b h = elim (Bool-cases (same_key b a)) [
  | inl e ↦
      let same : same_key a b ≡ true =
        subst (λ k. same_key k b ≡ true) (same_key→eq b a e) (same_key_self b) in
      cc
  | inr e ↦ e
]

-- No two entries have one key.
abbrev pub Distinct : List (Key × List ℕ) → Type 0
Distinct [] = Unit {0}
Distinct ((k, ws) ∷ rest) = (contains_key k rest ≡ false) × Distinct rest

contains_key-append_waiter :
    (k key : Key) (p : ℕ) (l : List (Key × List ℕ))
    → same_key k key ≡ false
    → contains_key k l ≡ false
    → contains_key k (append_waiter key p l) ≡ false
unfolding contains_key append_waiter
contains_key-append_waiter k key p [] h n = rw (same_key_flip k key h)
contains_key-append_waiter k key p ((a, ws) ∷ l) h n =
    ground (arith, contains_key-append_waiter k key p l h)

pub append_waiter-Distinct :
    (key : Key) (p : ℕ) (l : List (Key × List ℕ)) → Distinct l → Distinct (append_waiter key p l)
unfolding append_waiter contains_key
append_waiter-Distinct key p [] d = (refl, tt)
append_waiter-Distinct key p ((a, ws) ∷ l) d =
    ground (arith, d, append_waiter-Distinct key p l d.1, contains_key-append_waiter a key p l)

contains-remove_key :
    (k key : Key) (l : List (Key × List ℕ))
    → contains_key k l ≡ false
    → contains_key k (remove_key key l) ≡ false
unfolding contains_key remove_key
contains-remove_key k key [] h = h
contains-remove_key k key ((a, ws) ∷ l) h = ground (arith, h, contains-remove_key k key l)

pub remove_key-Distinct :
    (key : Key) (l : List (Key × List ℕ)) → Distinct l → Distinct (remove_key key l)
unfolding remove_key
remove_key-Distinct key [] d = tt
remove_key-Distinct key ((a, ws) ∷ l) d =
    ground (arith, d, remove_key-Distinct key l d.1, contains-remove_key a key l)

waiters_of-missing :
    (key : Key) (l : List (Key × List ℕ)) → contains_key key l ≡ false → waiters_of key l ≡ []
unfolding contains_key waiters_of
waiters_of-missing key [] h = refl
waiters_of-missing key ((a, ws) ∷ l) h = ground (arith, h, waiters_of-missing key l)

-- In a list of distinct keys, a key without waiters has none after the removal of another.
pub waiters_of-remove_key :
    (key other : Key) (l : List (Key × List ℕ))
    → Distinct l
    → waiters_of key l ≡ []
    → waiters_of key (remove_key other l) ≡ []
unfolding waiters_of remove_key
waiters_of-remove_key key other [] d h = h
waiters_of-remove_key key other ((a, ws) ∷ l) d h = elim (Bool-cases (same_key a key)) [
  | inl e ↦
      let gone : waiters_of key l ≡ [] =
        waiters_of-missing key l
          (subst (λ k. contains_key k l ≡ false) (same_key→eq a key e) d.0) in
      ground (arith, h, e, gone)
  | inr e ↦ ground (arith, h, e, waiters_of-remove_key key other l d.1)
]

pub contains_key-sweep :
    (k : Key) (socket : ℕ) (l : List (Key × List ℕ)) (sockets : List (ℕ × ℕ))
    → contains_key k (sweep socket l sockets).flights ≡ contains_key k l
unfolding sweep contains_key
contains_key-sweep k socket [] sockets = refl
contains_key-sweep k socket ((a, ws) ∷ l) sockets =
    rw (contains_key-sweep k socket l (part_waiters socket ws sockets).left)

pub sweep-Distinct :
    (socket : ℕ) (l : List (Key × List ℕ)) (sockets : List (ℕ × ℕ))
    → Distinct l
    → Distinct (sweep socket l sockets).flights
unfolding sweep
sweep-Distinct socket [] sockets d = tt
sweep-Distinct socket ((a, ws) ∷ l) sockets d =
    let left = (part_waiters socket ws sockets).left in
    (contains_key-sweep a socket l left ∙ d.0, sweep-Distinct socket l left d.1)

abbrev pub Empty : List (Key × List ℕ) → Key → Type 0
Empty l k = waiters_of k l ≡ []

abbrev Apart : Key → Key → Type 0
Apart k o = same_key k o ≡ false

orphans-Apart :
    (k : Key) (socket : ℕ) (l : List (Key × List ℕ)) (sockets : List (ℕ × ℕ))
    → contains_key k l ≡ false
    → All (Apart k) (sweep socket l sockets).orphans
unfolding sweep contains_key
orphans-Apart k socket [] sockets h = tt
orphans-Apart k socket ((a, ws) ∷ l) sockets h =
    ground
      (arith, h, same_key_flip a k, orphans-Apart k socket l (part_waiters socket ws sockets).left)

Empty-cons :
    (a : Key) (ws : List ℕ) (l : List (Key × List ℕ)) (os : List Key)
    → All (Apart a) os
    → All (Empty l) os
    → All (Empty ((a, ws) ∷ l)) os
unfolding waiters_of
Empty-cons a ws l [] h e = tt
Empty-cons a ws l (o ∷ os) h e = (rw h.0 e.0, Empty-cons a ws l os h.1 e.1)

Empty-head :
    (a : Key) (ws : List ℕ) (l : List (Key × List ℕ)) → is_empty ws ≡ true → Empty ((a, ws) ∷ l) a
unfolding waiters_of
Empty-head a [] l h = rw (same_key_self a)
Empty-head a (w ∷ ws) l h = ground (arith, h)

-- The keys that a sweep leaves without waiters.
pub sweep-orphans :
    (socket : ℕ) (l : List (Key × List ℕ)) (sockets : List (ℕ × ℕ))
    → Distinct l
    → All (Empty (sweep socket l sockets).flights) (sweep socket l sockets).orphans
unfolding sweep
sweep-orphans socket [] sockets d = tt
sweep-orphans socket ((a, ws) ∷ l) sockets d =
    let here : Parted = part_waiters socket ws sockets in
    let more : All (Empty ((a, here.kept) ∷ (sweep socket l here.left).flights))
        (sweep socket l here.left).orphans =
      Empty-cons a here.kept (sweep socket l here.left).flights (sweep socket l here.left).orphans
        (orphans-Apart a socket l here.left d.0) (sweep-orphans socket l here.left d.1) in
    elim (Bool-cases (is_empty here.kept)) [
      | inl e ↦ rw e (Empty-head a here.kept (sweep socket l here.left).flights e, more)
      | inr e ↦ rw e more
    ]

pub Empty-removed :
    (key : Key) (os : List Key) (l : List (Key × List ℕ))
    → Distinct l
    → All (Empty l) os
    → All (Empty (remove_key key l)) os
Empty-removed key [] l d h = tt
Empty-removed key (o ∷ os) l d h =
    (waiters_of-remove_key o key l d h.0, Empty-removed key os l d h.1)
