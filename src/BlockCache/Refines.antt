-- ===== src/BlockCache/Refines.antt =====
-- lib/copernicus_decoded_block_cache.h: the class does what the list does, and no assertion fails.
use aowis_server_map.Prelude.{
  ℕ, ◌+◌, ◌-◌, ◌≤◌, ◌<◌, ◌≡◌, refl, ap, ◌∙◌, true, false, Option, none, some, arith, List, [], ◌∷◌,
  ◌++◌, length, is_empty, Bytes, if◌then◌else◌, ltb, ==-self, inl, inr, Bool-cases,
}
use aowis_server_map.Prelude.Int.{ℤ, pos_part}
use aowis_server_map.BlockCache.Budget.{reserve, release}
use aowis_server_map.BlockCache.Cache.{
  State, create, destroy, find, erase, give_back, drop_block, with_order, evict, charge, store,
  insert,
}
use aowis_server_map.BlockCache.Spec.{
  total, keys, trim, Share, Fifo, budget_at, concrete, affordable, fifo_insert, Affords, IsValid,
  fifo_insert-IsValid, fifo_insert-capacity, fifo_insert-share, total-append, trim-le_total,
  Affords-le,
}

give_back-budget_at :
    (share : Option Share) (n m : ℕ)
    → give_back (budget_at share (n + m)) n ≡ some (budget_at share m)
unfolding give_back release
give_back-budget_at none n m = refl
give_back-budget_at (some b) n m = ground arith

drop_block-concrete :
    (f : Fifo) (k : ℕ) (block : Bytes) (rest : List (ℕ × Bytes)) (queue : List ℕ)
    → drop_block k (with_order (concrete (record f { blocks = (k, block) ∷ rest })) queue)
      ≡ some (with_order (concrete (record f { blocks = rest })) queue)
unfolding drop_block find erase
drop_block-concrete f k block rest queue =
    ground (arith, ==-self k, give_back-budget_at f.share (length block) (total rest))

-- The loop ends by its test, never with an empty queue and blocks that are left.
evict-concrete :
    (size : ℕ) (f : Fifo) (blocks : List (ℕ × Bytes)) (queue : List ℕ)
    → size ≤ f.capacity
    → evict size (keys blocks) (with_order (concrete (record f { blocks = blocks })) queue)
      ≡ some (concrete (record f { blocks = trim (f.capacity - size) blocks }), true)
unfolding evict trim
evict-concrete size f [] queue h = ground arith
evict-concrete size f ((k, block) ∷ rest) queue h =
    ground (arith, drop_block-concrete f k block rest queue, evict-concrete size f rest queue h)

keys-append :
    (xs : List (ℕ × Bytes)) (key : ℕ) (block : Bytes)
    → keys (xs ++ ((key, block) ∷ [])) ≡ keys xs ++ (key ∷ [])
keys-append [] key block = refl
keys-append ((k, b) ∷ xs) key block = ap (◌∷◌ k) (keys-append xs key block)

-- What the end of `insert` does to the shared budget.
charge-budget_at :
    (share : Option Share) (n size : ℕ)
    → Affords share n
    → 0 < size
    → charge (budget_at share n) size ≡ (
        if affordable share (n + size)
        then (budget_at share (n + size), true)
        else (budget_at share n, false))
unfolding charge reserve
charge-budget_at none n size a h = refl
charge-budget_at (some b) n size a h = ground arith

length-positive : (block : Bytes) → is_empty block ≡ false → 0 < length block
length-positive [] h = ground arith
length-positive (x ∷ block) h = omega arith

total-snoc :
    (xs : List (ℕ × Bytes)) (key : ℕ) (block : Bytes)
    → total (xs ++ ((key, block) ∷ [])) ≡ total xs + length block
total-snoc xs key block = omega (arith, total-append xs ((key, block) ∷ []))

store-concrete :
    (key : ℕ) (block : Bytes) (f : Fifo)
    → Affords f.share (total f.blocks)
    → is_empty block ≡ false
    → store key block (concrete f) ≡ (
        if affordable f.share (total f.blocks + length block)
        then (concrete (record f { blocks = f.blocks ++ ((key, block) ∷ []) }), true)
        else (concrete f, false))
unfolding store
store-concrete key block f a h =
    rw
      (
        charge-budget_at f.share (total f.blocks) (length block) a (length-positive block h),
        keys-append f.blocks key block,
        total-snoc f.blocks key block,
      )
      (elim (Bool-cases (affordable f.share (total f.blocks + length block))) [
        | inl e ↦ rw e
        | inr e ↦ rw e
      ])

kept-Affords :
    (f : Fifo) (n : ℕ) → IsValid f → Affords f.share (total (trim (f.capacity - n) f.blocks))
kept-Affords f n v = Affords-le f.share _ _ (trim-le_total (f.capacity - n) f.blocks) v.affords

-- On the state that stands for a valid list, `insert` fails no assertion, returns what the list's
-- insertion returns and leaves the state that stands for the list's result: an empty block, one
-- larger than the cache and a second one under a key are refused and change nothing; otherwise the
-- oldest blocks go until the new one fits, and it is stored if the shared budget grants its size.
pub insert-refines :
    (key : ℕ) (block : Bytes) (f : Fifo)
    → IsValid f
    → let (f', stored) = fifo_insert key block f in
      insert key block (concrete f) ≡ some (concrete f', stored)
unfolding insert fifo_insert
insert-refines key block f v = ground (
  arith,
  kept-Affords f (length block) v,
  evict-concrete (length block) f f.blocks (keys f.blocks),
  store-concrete key block (record f { blocks = trim (f.capacity - length block) f.blocks }),
)

-- A sequence of insertions, as a raster reader makes them; the results do not matter here.
unfoldable pub insert_all : List (ℕ × Bytes) → State → Option State
insert_all [] s = some s
insert_all ((key, block) ∷ rest) s = elim (insert key block s) [
  | none ↦ none
  | some (s', stored) ↦ insert_all rest s'
]

insert_all-concrete :
    (inserts : List (ℕ × Bytes)) (f : Fifo)
    → IsValid f
    → (f' : Fifo) × IsValid f'
      × (insert_all inserts (concrete f) ≡ some (concrete f'))
      × (f'.capacity ≡ f.capacity)
      × (f'.share ≡ f.share)
unfolding insert_all
insert_all-concrete [] f v = (f, v, refl, refl, refl)
insert_all-concrete ((key, block) ∷ rest) f v =
    let g : Fifo = (fifo_insert key block f).0 in
    let (f', v', run, capacity, share) =
      insert_all-concrete rest g (fifo_insert-IsValid key block f v) in
    (
      f',
      v',
      rw (insert-refines key block f v, insert_all) run,
      capacity ∙ fifo_insert-capacity key block f,
      share ∙ fifo_insert-share key block f,
    )

end_charge :
    (share : Option Share) (n : ℕ)
    → (if ltb 0 n then give_back (budget_at share n) n else some (budget_at share n))
      ≡ some (budget_at share 0)
unfolding give_back release
end_charge none n = ground arith
end_charge (some b) n = ground arith

destroy-concrete : (f : Fifo) → destroy (concrete f) ≡ some (budget_at f.share 0)
unfolding destroy
destroy-concrete f = end_charge f.share (total f.blocks)

-- A cache over any shared budget that is within its limit, any sequence of insertions, and the
-- destructor: no assertion fails on the way, the stored bytes never exceed the cache's maximum, and
-- in the end the budget is what it was before the cache.
pub insert_all-destroy :
    (maximum : ℤ) (share : Option Share) (inserts : List (ℕ × Bytes))
    → Affords share 0
    → (s : State) × (insert_all inserts (create maximum (budget_at share 0)) ≡ some s)
      × (s.cache.stored_bytes ≤ pos_part maximum)
      × (destroy s ≡ some (budget_at share 0))
unfolding create
insert_all-destroy maximum share inserts a =
    let f : Fifo = record { capacity = pos_part maximum; blocks = []; share = share } in
    let (f', v, run, capacity, kept) =
      insert_all-concrete inserts f
        (record { distinct = tt; bounded = omega arith; affords = a }) in
    (
      concrete f',
      run,
      omega (arith, v.bounded, capacity),
      destroy-concrete f' ∙ ap (λ b. some (budget_at b 0)) kept,
    )
