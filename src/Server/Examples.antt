-- ===== src/Server/Examples.antt =====
-- server/server.cpp: requests, jobs and disconnections in a concrete order.
use aowis_server_map.Prelude.{
  ℕ, ◌≡◌, refl, true, false, none, some, List, [], ◌∷◌, codes, arith, eqb,
}
use aowis_server_map.Prelude.Int.{pos}
use aowis_server_map.Admission.Jobs
use aowis_server_map.Admission.Bytes
use aowis_server_map.Server.State.{State, init, outcome, disconnected, same_key}
use aowis_server_map.Server.Submit.{
  submit_job, submit_terrain_tile, submit_terrain_elevation, submit_terrain_grid,
}
use aowis_server_map.Server.Work.{
  Event, submit_tile, submit_grid, disconnect, acquired, processed, delivered, nth, step, run,
  destroy,
}
use aowis_server_map.Server.Invariant.{Valid}
use aowis_server_map.Server.Attended.{Attended}
use aowis_server_map.Server.Refused.{Unchanged, submit-busy, destroy-answers}
use aowis_server_map.Server.Runs.{run-Valid}
use aowis_server_map.Server.Tracks.{Lasting}
use aowis_server_map.Server.Stale.{Delivers, run-Delivers}
use aowis_server_map.Server.Sums.{sum_answers}
use aowis_server_map.Server.Waiting.{is, issued}
use aowis_server_map.MapTiles.Replies.{timeout}
use aowis_server_map.Server.MapRequests.{
  map_init, map_run, map_destroy, MapEvent, requested, ready, failed,
}
use aowis_server_map.Server.MapRequests.Answered.{MapValid, map_run-MapValid}

-- Two clients wait for one tile and a third for a grid; the third and the first leave, and the tile
-- arrives.
abbrev events : List (Event ℕ)
events =
    submit_tile (codes "a/1/0/0") true (some 1)
    ∷ submit_tile (codes "a/1/0/0") true (some 2)
    ∷ submit_grid (codes "g") 4 4 false (some 3)
    ∷ disconnect 3
    ∷ disconnect 1
    ∷ acquired 0 true 500
    ∷ processed 0 200
    ∷ delivered 0
    ∷ []

abbrev start : State ℕ
start = init (pos 8) (pos 2) (pos 1) 1000

answers_of_run :
    (run start events).answers ≡ (2, disconnected) ∷ (0, disconnected) ∷ (1, outcome 200) ∷ []
unfolding run step init Jobs.init Bytes.init submit_job same_key eqb
answers_of_run = refl

run-Valid_example : Valid (pos 2) (pos 1) 1000 (run start events)
run-Valid_example = run-Valid (pos 2) (pos 1) 1000 (omega arith) (pos 8) events

-- The client leaves and another asks for the same tile; then the first job fails, and its callback comes.
abbrev comes_back : List (Event ℕ)
comes_back =
    submit_tile (codes "a/1/0/0") true (some 1)
    ∷ disconnect 1
    ∷ submit_tile (codes "a/1/0/0") true (some 2)
    ∷ []

comes_back_answers :
    (run (run start comes_back) (acquired 0 false 500 ∷ delivered 0 ∷ [])).answers
    ≡ (0, disconnected) ∷ []
unfolding run step init Jobs.init Bytes.init submit_job same_key eqb
comes_back_answers = refl

run-Delivers_example :
    let s = run start comes_back in
    let s' = run s (acquired 0 false 500 ∷ []) in
    Attended s × Lasting s s' × Delivers s' (step s' (delivered 0)) (nth 0 s'.jobs)
run-Delivers_example =
    run-Delivers (pos 8) (pos 2) (pos 1) 1000 comes_back (acquired 0 false 500 ∷ []) 0

-- The overall counter is full.
submit-busy_example :
    let s : State ℕ = run (init (pos 8) (pos 0) (pos 1) 1000) [] in
    Unchanged s (submit_terrain_tile s (codes "a/1/0/0") true none)
    × Unchanged s (submit_terrain_elevation s (codes "a/1/0/0") true none)
    × Unchanged s (submit_terrain_grid s (codes "a/1/0/0") 4 4 true none)
submit-busy_example =
    submit-busy (pos 0) (pos 1) 1000 (omega arith) (run (init (pos 8) (pos 0) (pos 1) 1000) [])
      (codes "a/1/0/0") 4 4 true none (run-Valid (pos 0) (pos 1) 1000 (omega arith) (pos 8) [])

destroy-answers_example :
    let s = run start events in sum_answers (is 1) (destroy s).answers ≡ issued 1 s.fresh
destroy-answers_example = destroy-answers (pos 2) (pos 1) 1000 (omega arith) (pos 8) events 1

-- Two requests where one may wait: the second is refused, and the tile answers the first.
abbrev map_events : List MapEvent
map_events =
    requested (codes "k")
    ∷ requested (codes "k")
    ∷ ready (codes "k") (1 ∷ [])
    ∷ requested (codes "m")
    ∷ failed (codes "m") timeout
    ∷ []

map_run-MapValid_example :
    let s = map_run (map_init (pos 1)) map_events in
    MapValid (pos 1) s × (sum_answers (is 0) (map_destroy s).answers ≡ issued 0 s.fresh)
map_run-MapValid_example = map_run-MapValid (pos 1) map_events 0
