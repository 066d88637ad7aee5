-- ===== src/Server/MapRequests.antt =====
-- server/server.cpp: the pending map-tile requests, that is `appendPendingPromise`,
-- `takePendingPromises`, `onTileReady`, `onTileFailed`, the end of the route, and the destructor. Each
-- call holds the mutex, so it is one step.
pub mod Answered
use aowis_server_map.Prelude.{
  ℕ, ◌+◌, Bool, true, false, not, ◌&&◌, ◌||◌, List, [], ◌∷◌, ◌++◌, length, Bytes, Text,
  if◌then◌else◌,
}
use aowis_server_map.Prelude.Int.{ℤ, pos, ltb_ℤ, ◌+ℤ◌, ◌-ℤ◌}
use aowis_server_map.MapTiles.Replies.{TileFailureReason, upstream_error, timeout, cancelled}
use aowis_server_map.Server.State.{
  map_tiles, Key, Answer, outcome, waiters_of, remove_key, append_waiter, answer_all,
}
use aowis_server_map.Server.Work.{finish_pending}

-- The status that a failure is answered with.
pub data FailureStatus : Type 0 where
  gateway_timeout service_unavailable bad_gateway : FailureStatus

unfoldable pub failure_status : TileFailureReason → FailureStatus
failure_status upstream_error = bad_gateway
failure_status timeout = gateway_timeout
failure_status cancelled = service_unavailable

-- What a request is answered with, but for the end of the server.
pub data MapOutcome : Type 0 where
  tile : Bytes → MapOutcome
  failure : FailureStatus → MapOutcome
  too_many_requests : MapOutcome

pub record MapState : Type 0 where
  pub maximum_pending_requests : ℤ
  pub connections_pending : List (Key × List ℕ)
  pub pending_request_count : ℤ
  pub shutting_down : Bool
  -- The promises that are finished, in this order, and the next promise.
  pub answers : List (ℕ × Answer MapOutcome)
  pub fresh : ℕ

abbrev pub map_init : ℤ → MapState
map_init maximum = record {
  maximum_pending_requests = maximum;
  connections_pending = [];
  pending_request_count = pos 0;
  shutting_down = false;
  answers = [];
  fresh = 0;
}

abbrev pub map_key : Text → Key
map_key text = record { registry = map_tiles; text = text }

unfoldable pub append_pending_promise : MapState → Key → ℕ → MapState × Bool
unfolding append_waiter ◌+ℤ◌
append_pending_promise s key promise =
    if s.shutting_down || not (ltb_ℤ s.pending_request_count s.maximum_pending_requests)
    then (s, false)
    else (
      record s {
        connections_pending = append_waiter key promise s.connections_pending;
        pending_request_count = s.pending_request_count +ℤ pos 1;
      },
      true,
    )

unfoldable pub take_pending_promises : MapState → Key → MapState × List ℕ
unfolding waiters_of remove_key ◌-ℤ◌
take_pending_promises s key =
    let promises = waiters_of key s.connections_pending in
    (
      record s {
        connections_pending = remove_key key s.connections_pending;
        pending_request_count = s.pending_request_count -ℤ pos (length promises);
      },
      promises,
    )

-- A promise that cannot wait is finished at once.
unfoldable pub finish_refused : MapState × Bool → ℕ → MapState
finish_refused (s, true) promise = s
finish_refused (s, false) promise = record s {
  answers = s.answers ++ ((promise, outcome too_many_requests) ∷ []);
}

-- The end of the route: a promise that waits for the tile.
unfoldable pub request_map_tile : MapState → Text → MapState
unfolding append_pending_promise finish_refused
request_map_tile s text =
    finish_refused
      (append_pending_promise (record s { fresh = s.fresh + 1 }) (map_key text) s.fresh) s.fresh

unfoldable pub finish_taken : MapState × List ℕ → MapOutcome → MapState
finish_taken (s, promises) result = record s {
  answers = s.answers ++ answer_all (outcome result) promises;
}

unfoldable pub on_tile_ready : MapState → Text → Bytes → MapState
unfolding take_pending_promises finish_taken
on_tile_ready s text content = finish_taken (take_pending_promises s (map_key text)) (tile content)

unfoldable pub on_tile_failed : MapState → Text → TileFailureReason → MapState
unfolding take_pending_promises finish_taken failure_status
on_tile_failed s text reason =
    finish_taken (take_pending_promises s (map_key text)) (failure (failure_status reason))

unfoldable pub map_destroy : MapState → MapState
unfolding finish_pending
map_destroy s = record s {
  shutting_down = true;
  connections_pending = [];
  pending_request_count = pos 0;
  answers = s.answers ++ finish_pending s.connections_pending;
}

pub data MapEvent : Type 0 where
  requested : Text → MapEvent
  ready : Text → Bytes → MapEvent
  failed : Text → TileFailureReason → MapEvent

unfoldable pub map_step : MapState → MapEvent → MapState
unfolding request_map_tile on_tile_ready on_tile_failed
map_step s (requested text) = request_map_tile s text
map_step s (ready text content) = on_tile_ready s text content
map_step s (failed text reason) = on_tile_failed s text reason

unfoldable pub map_run : MapState → List MapEvent → MapState
unfolding map_step
map_run s [] = s
map_run s (e ∷ rest) = map_run (map_step s e) rest
