-- ===== src/Server/MapRequests/Answered.antt =====
-- server/server.cpp: every map-tile request is answered once.
use aowis_server_map.Prelude.{
  ℕ, ◌+◌, ◌≡◌, refl, not, ◌||◌, List, [], ◌∷◌, ◌++◌, Text, ◌⊎◌, inl, inr, arith, Bool-cases,
}
use aowis_server_map.Prelude.Int.{ℤ, pos, ltb_ℤ, ◌+ℤ◌, ◌≤ℤ◌}
use aowis_server_map.Server.State.{Key, Answer, outcome}
use aowis_server_map.Server.Work.{finish_pending}
use aowis_server_map.Server.Waiting.{Waiting, is, one, issued, join-Waiting, drain-Waiting}
use aowis_server_map.Server.Sums.{
  sum_answers, sum_answers-append, sum_answers-finish_pending, sum_pending-remove_key,
}
use aowis_server_map.Server.MapRequests.{
  MapOutcome, tile, failure, too_many_requests, failure_status, MapState, map_init, map_key,
  append_pending_promise, take_pending_promises, finish_refused, request_map_tile, finish_taken,
  on_tile_ready, on_tile_failed, map_destroy, MapEvent, requested, ready, failed, map_step, map_run,
}

-- The waiting promises and their count, which is 0 or at most the maximum.
pub record MapValid (m : ℤ) (s : MapState) : Type 0 where
  pub maximum : s.maximum_pending_requests ≡ m
  pub waiting : Waiting s.connections_pending s.pending_request_count s.answers s.fresh
  pub bounded : (s.pending_request_count ≡ pos 0) ⊎ (s.pending_request_count ≤ℤ m)

module _ (m : ℤ) where
  refused-Waiting :
      (pending : List (Key × List ℕ)) (count : ℤ) (answers : List (ℕ × Answer MapOutcome))
      (fresh : ℕ) (a : Answer MapOutcome)
      → Waiting pending count answers fresh
      → Waiting pending count (answers ++ ((fresh, a) ∷ [])) (fresh + 1)
  refused-Waiting pending count answers fresh a w = record {
    distinct = w.distinct;
    counted = w.counted;
    answered =
        λ q. ground (arith, w.answered q, sum_answers-append (is q) answers ((fresh, a) ∷ []));
  }

  request-MapValid :
      (s : MapState) (text : Text) → MapValid m s → MapValid m (request_map_tile s text)
  unfolding request_map_tile append_pending_promise finish_refused ◌+ℤ◌
  request-MapValid s text v =
      elim (Bool-cases
        (s.shutting_down || not (ltb_ℤ s.pending_request_count s.maximum_pending_requests))) [
          | inl e ↦ rw e (record {
            maximum = v.maximum;
            waiting =
                refused-Waiting s.connections_pending s.pending_request_count s.answers s.fresh
                  (outcome too_many_requests) v.waiting;
            bounded = v.bounded;
          })
          | inr e ↦ rw e (record {
            maximum = v.maximum;
            waiting =
                join-Waiting s.connections_pending s.pending_request_count s.answers s.fresh
                  v.waiting (map_key text);
            bounded = inr (ground (arith, e, v.maximum, v.waiting.counted));
          })
        ]

  taken-MapValid :
      (s : MapState) (key : Key) (result : MapOutcome)
      → MapValid m s
      → MapValid m (finish_taken (take_pending_promises s key) result)
  unfolding finish_taken take_pending_promises
  taken-MapValid s key result v =
      let w =
        drain-Waiting s.connections_pending s.pending_request_count s.answers s.fresh v.waiting key
          (outcome result) in
      record {
        maximum = v.maximum;
        waiting = w;
        bounded = ground (
          arith,
          v.bounded,
          v.waiting.counted,
          w.counted,
          sum_pending-remove_key one key s.connections_pending,
        );
      }

  map_step-MapValid : (s : MapState) (e : MapEvent) → MapValid m s → MapValid m (map_step s e)
  unfolding map_step on_tile_ready on_tile_failed
  map_step-MapValid s (requested text) v = request-MapValid s text v
  map_step-MapValid s (ready text content) v = taken-MapValid s (map_key text) (tile content) v
  map_step-MapValid s (failed text reason) v =
      taken-MapValid s (map_key text) (failure (failure_status reason)) v

  map_runs-MapValid :
      (events : List MapEvent) (s : MapState) → MapValid m s → MapValid m (map_run s events)
  unfolding map_run
  map_runs-MapValid [] s v = v
  map_runs-MapValid (e ∷ rest) s v = map_runs-MapValid rest (map_step s e) (map_step-MapValid s e v)

  map_init-MapValid : MapValid m (map_init m)
  map_init-MapValid = record {
    maximum = refl;
    waiting = record { distinct = tt; counted = refl; answered = λ q. ground arith };
    bounded = inl refl;
  }

-- After any sequence of map-tile requests, of tiles that are ready and of failures: the count of
-- pending requests is the number of promises that wait, 0 or at most the maximum; and every promise
-- waits once or has been answered once; and with the destructor, every promise has been answered
-- exactly once.
pub map_run-MapValid :
    (m : ℤ) (events : List MapEvent) (q : ℕ)
    → let s = map_run (map_init m) events in
      MapValid m s × (sum_answers (is q) (map_destroy s).answers ≡ issued q s.fresh)
unfolding map_destroy
map_run-MapValid m events q =
    let s : MapState = map_run (map_init m) events in
    let v : MapValid m s = map_runs-MapValid m events (map_init m) (map_init-MapValid m) in
    (
      v,
      omega (
        arith,
        sum_answers-append (is q) s.answers (finish_pending s.connections_pending),
        sum_answers-finish_pending (is q) MapOutcome s.connections_pending,
        v.waiting.answered q,
      ),
    )
