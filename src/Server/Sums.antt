-- ===== src/Server/Sums.antt =====
-- server/server.cpp: sums over the waiters of all keys.
use aowis_server_map.Prelude.{ℕ, ◌+◌, ◌≡◌, refl, ap, List, [], ◌∷◌, ◌++◌, arith}
use aowis_server_map.Server.State.{Key, Answer, remove_key, waiters_of, append_waiter, answer_all}
use aowis_server_map.Server.Waiters.{Parted, part_waiters, sweep}
use aowis_server_map.Server.Work.{finish_pending}

abbrev pub sum_of : (ℕ → ℕ) → List ℕ → ℕ
sum_of f [] = 0
sum_of f (p ∷ ps) = f p + sum_of f ps

abbrev pub sum_pending : (ℕ → ℕ) → List (Key × List ℕ) → ℕ
sum_pending f [] = 0
sum_pending f ((k, ws) ∷ rest) = sum_of f ws + sum_pending f rest

abbrev pub sum_answers : {R : Type 0} → (ℕ → ℕ) → List (ℕ × Answer R) → ℕ
sum_answers f [] = 0
sum_answers f ((p, a) ∷ rest) = f p + sum_answers f rest

module _ (f : ℕ → ℕ) where
  pub sum_of-append : (xs ys : List ℕ) → sum_of f (xs ++ ys) ≡ sum_of f xs + sum_of f ys
  sum_of-append [] ys = omega arith
  sum_of-append (x ∷ xs) ys = omega (arith, sum_of-append xs ys)

  pub sum_answers-append :
      {R : Type 0} (xs ys : List (ℕ × Answer R))
      → sum_answers f (xs ++ ys) ≡ sum_answers f xs + sum_answers f ys
  sum_answers-append [] ys = omega arith
  sum_answers-append ((p, a) ∷ xs) ys = omega (arith, sum_answers-append xs ys)

  pub sum_answers-answer_all :
      {R : Type 0} (a : Answer R) (ps : List ℕ) → sum_answers f (answer_all a ps) ≡ sum_of f ps
  sum_answers-answer_all a [] = refl
  sum_answers-answer_all a (p ∷ ps) = ap (λ n. f p + n) (sum_answers-answer_all a ps)

  pub sum_pending-append_waiter :
      (key : Key) (p : ℕ) (l : List (Key × List ℕ))
      → sum_pending f (append_waiter key p l) ≡ sum_pending f l + f p
  unfolding append_waiter
  sum_pending-append_waiter key p [] = omega arith
  sum_pending-append_waiter key p ((k, ws) ∷ l) =
      ground (arith, sum_of-append ws (p ∷ []), sum_pending-append_waiter key p l)

  pub sum_pending-remove_key :
      (key : Key) (l : List (Key × List ℕ))
      → sum_pending f (remove_key key l) + sum_of f (waiters_of key l) ≡ sum_pending f l
  unfolding remove_key waiters_of
  sum_pending-remove_key key [] = refl
  sum_pending-remove_key key ((k, ws) ∷ l) = ground (arith, sum_pending-remove_key key l)

  sum_of-part_waiters :
      (socket : ℕ) (ws : List ℕ) (sockets : List (ℕ × ℕ))
      → sum_of f (part_waiters socket ws sockets).kept
          + sum_of f (part_waiters socket ws sockets).dropped
        ≡ sum_of f ws
  unfolding part_waiters
  sum_of-part_waiters socket [] sockets = refl
  sum_of-part_waiters socket (p ∷ ps) sockets =
      let rest = part_waiters socket ps sockets in
      ground (arith, sum_of-append rest.dropped (p ∷ []), sum_of-part_waiters socket ps sockets)

  pub sum_pending-sweep :
      (socket : ℕ) (l : List (Key × List ℕ)) (sockets : List (ℕ × ℕ))
      → sum_pending f (sweep socket l sockets).flights + sum_of f (sweep socket l sockets).gone
        ≡ sum_pending f l
  unfolding sweep
  sum_pending-sweep socket [] sockets = refl
  sum_pending-sweep socket ((k, ws) ∷ l) sockets =
      let here : Parted = part_waiters socket ws sockets in
      omega (
        arith,
        sum_of-part_waiters socket ws sockets,
        sum_of-append here.dropped (sweep socket l here.left).gone,
        sum_pending-sweep socket l here.left,
      )

  pub sum_answers-finish_pending :
      (R : Type 0) (l : List (Key × List ℕ))
      → sum_answers {R = R} f (finish_pending l) ≡ sum_pending f l
  unfolding finish_pending
  sum_answers-finish_pending R [] = refl
  sum_answers-finish_pending R ((k, ws) ∷ l) = omega (
    arith,
    sum_answers-append {R = R} (answer_all Answer.stopping ws) (finish_pending l),
    sum_answers-answer_all {R = R} Answer.stopping ws,
    sum_answers-finish_pending R l,
  )
