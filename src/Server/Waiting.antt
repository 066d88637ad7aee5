-- ===== src/Server/Waiting.antt =====
-- server/server.cpp: the waiting promises, their count and the answers, under each change of a hash.
use aowis_server_map.Prelude.{
  ℕ, ◌+◌, ◌≡◌, refl, sym, ap, ◌∙◌, List, [], ◌∷◌, ◌++◌, length, if◌then◌else◌, ltb, ◌==◌, arith,
}
use aowis_server_map.Prelude.Int.{ℤ, pos, ◌+ℤ◌, ◌-ℤ◌}
use aowis_server_map.Server.State.{Key, Answer, remove_key, waiters_of, append_waiter, answer_all}
use aowis_server_map.Server.Waiters.{sweep}
use aowis_server_map.Server.Counts
use aowis_server_map.Server.Sums.{
  sum_of, sum_pending, sum_answers, sum_answers-append, sum_answers-answer_all,
  sum_pending-append_waiter, sum_pending-remove_key, sum_pending-sweep,
}

abbrev pub one : ℕ → ℕ
one p = 1

abbrev pub is : ℕ → ℕ → ℕ
is q p = if p == q then 1 else 0

-- How often a promise has been made.
abbrev pub issued : ℕ → ℕ → ℕ
issued q fresh = if ltb q fresh then 1 else 0

pub sum_of-one : (ws : List ℕ) → sum_of one ws ≡ length ws
sum_of-one [] = refl
sum_of-one (w ∷ ws) = omega (arith, sum_of-one ws)

module _ {R : Type 0} where
  -- The keys are distinct, the count is the number of waiters, and every promise that was made
  -- either waits once or has been answered once.
  pub record Waiting (pending : List (Key × List ℕ)) (count : ℤ) (answers : List (ℕ × Answer R))
      (fresh : ℕ) : Type 0 where
    pub distinct : Counts.Distinct pending
    pub counted : count ≡ pos (sum_pending one pending)
    pub answered :
        (q : ℕ) → sum_pending (is q) pending + sum_answers (is q) answers ≡ issued q fresh

  module _ (pending : List (Key × List ℕ)) (count : ℤ) (answers : List (ℕ × Answer R)) (fresh : ℕ)
      (w : Waiting pending count answers fresh) where
    pub join-Waiting :
        (key : Key) → Waiting (append_waiter key fresh pending) (count +ℤ pos 1) answers (fresh + 1)
    unfolding ◌+ℤ◌
    join-Waiting key = record {
      distinct = Counts.append_waiter-Distinct key fresh pending w.distinct;
      counted = ground (arith, w.counted, sum_pending-append_waiter one key fresh pending);
      answered =
          λ q. ground (arith, w.answered q, sum_pending-append_waiter (is q) key fresh pending);
    }

    pub drain-Waiting :
        (key : Key) (a : Answer R)
        → let waiters = waiters_of key pending in
          Waiting
            (remove_key key pending)
            (count -ℤ pos (length waiters))
            (answers ++ answer_all a waiters)
            fresh
    unfolding ◌-ℤ◌
    drain-Waiting key a =
        let waiters : List ℕ = waiters_of key pending in
        record {
          distinct = Counts.remove_key-Distinct key pending w.distinct;
          counted =
              ground (arith, w.counted, sum_pending-remove_key one key pending, sum_of-one waiters);
          answered = λ q. omega (
            arith,
            w.answered q,
            sum_pending-remove_key (is q) key pending,
            sum_answers-append (is q) answers (answer_all a waiters),
            sum_answers-answer_all (is q) a waiters,
          );
        }

    pub sweep-Waiting :
        (socket : ℕ) (sockets : List (ℕ × ℕ)) (a : Answer R)
        → let x = sweep socket pending sockets in
          Waiting x.flights (count -ℤ pos (length x.gone)) (answers ++ answer_all a x.gone) fresh
    unfolding ◌-ℤ◌
    sweep-Waiting socket sockets a =
        let gone : List ℕ = (sweep socket pending sockets).gone in
        record {
          distinct = Counts.sweep-Distinct socket pending sockets w.distinct;
          counted =
              ground
                (arith, w.counted, sum_pending-sweep one socket pending sockets, sum_of-one gone);
          answered = λ q. omega (
            arith,
            w.answered q,
            sum_pending-sweep (is q) socket pending sockets,
            sum_answers-append (is q) answers (answer_all a gone),
            sum_answers-answer_all (is q) a gone,
          );
        }

    pub orphan-Waiting :
        (key : Key)
        → Counts.Empty pending key
        → Waiting (remove_key key pending) count answers fresh
    orphan-Waiting key e =
        let same : (f : ℕ → ℕ) → sum_pending f (remove_key key pending) ≡ sum_pending f pending =
          λ f. omega (arith, sum_pending-remove_key f key pending, ap (sum_of f) e) in
        record {
          distinct = Counts.remove_key-Distinct key pending w.distinct;
          counted = w.counted ∙ ap pos (sym (same one));
          answered = λ q. omega (arith, w.answered q, same (is q));
        }
