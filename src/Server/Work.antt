-- ===== src/Server/Work.antt =====
-- server/server.cpp: the jobs' stages, the queued callbacks, `abandonTerrainWaiters` and the
-- destructor. A stage of the job with a given number is one step; what a worker computed is given.
use aowis_server_map.Prelude.{
  ℕ, zero, suc, Bool, true, not, ◌&&◌, Option, none, some, List, [], ◌∷◌, ◌++◌, length, Text,
  if◌then◌else◌, ◌==◌,
}
use aowis_server_map.Prelude.Int.{pos, ◌-ℤ◌}
use aowis_server_map.Admission.Jobs
use aowis_server_map.Admission.Bytes
use aowis_server_map.Server.State.{
  Key, Phase, acquiring, processing, delivering, Job, Answer, outcome, disconnected, stopping,
  State, value_of, remove_key, waiters_of, forget_all, answer_all,
}
use aowis_server_map.Server.Waiters.{holds, is_current, sweep, cancel_token}
use aowis_server_map.Server.Submit.{
  submit_terrain_job, submit_terrain_tile, submit_terrain_elevation, submit_terrain_grid,
}

module _ {R : Type 0} where
  abbrev pub nth : ℕ → List (Job R) → Option (Job R)
  nth n [] = none
  nth zero (j ∷ js) = some j
  nth (suc n) (j ∷ js) = nth n js

  abbrev pub change : ℕ → Phase R → List (Job R) → List (Job R)
  change n phase [] = []
  change zero phase (j ∷ js) = record j { phase = phase } ∷ js
  change (suc n) phase (j ∷ js) = j ∷ change n phase js

  abbrev pub delete : ℕ → List (Job R) → List (Job R)
  delete n [] = []
  delete zero (j ∷ js) = js
  delete (suc n) (j ∷ js) = j ∷ delete n js

  -- The end of a job of `submitTerrainJob`, if one of these runs.
  unfoldable pub end_one_of : State R → ℕ → State R
  unfolding Jobs.release
  end_one_of s zero = s
  end_one_of s (suc n) = record s { admission = Jobs.release s.admission; plain_jobs = n }

  unfoldable pub end_plain : State R → State R
  unfolding end_one_of
  end_plain s = end_one_of s s.plain_jobs

  -- The end of `acquire...Sources`: the remote slot is free, and the job goes on to the worker pool
  -- or, with its failure, to the HTTP thread.
  unfoldable pub end_acquisition : State R → ℕ → Job R → Bool → R → State R
  unfolding Jobs.release
  end_acquisition s n j ready failure =
      if ready && not (holds j.token s.cancelled)
      then record s { remote = Jobs.release s.remote; jobs = change n processing s.jobs }
      else record s {
        remote = Jobs.release s.remote;
        admission = Jobs.release s.admission;
        jobs = change n (delivering failure) s.jobs;
      }

  unfoldable pub end_processing : State R → ℕ → R → State R
  unfolding Jobs.release
  end_processing s n result = record s {
    admission = Jobs.release s.admission;
    jobs = change n (delivering result) s.jobs;
  }

  -- The callback whose token is the key's: every waiter gets the result.
  unfoldable pub drain : State R → Key → R → State R
  unfolding remove_key waiters_of forget_all ◌-ℤ◌
  drain s key result =
      let waiters = waiters_of key s.pending in
      record s {
        tokens = remove_key key s.tokens;
        pending = remove_key key s.pending;
        pending_count = s.pending_count -ℤ pos (length waiters);
        sockets = forget_all waiters s.sockets;
        answers = s.answers ++ answer_all (outcome result) waiters;
      }

  -- The callback; a grid gives its bytes back in both cases.
  unfoldable pub deliver : State R → ℕ → Job R → R → State R
  unfolding Bytes.release value_of drain
  deliver s n j result =
      let s' = record s {
        grid_bytes = if j.bytes == 0 then s.grid_bytes else Bytes.release s.grid_bytes j.bytes;
        jobs = delete n s.jobs;
      } in
      if is_current j.token (value_of j.key s.tokens) then drain s' j.key result else s'

  -- What a stage of a job does, if the job is in that stage.
  unfoldable pub on_acquired : State R → ℕ → Option (Job R) → Bool → R → State R
  unfolding end_acquisition
  on_acquired s n none ready failure = s
  on_acquired s n (some j) ready failure = elim j.phase [
    | acquiring ↦ end_acquisition s n j ready failure
    | processing ↦ s
    | delivering r ↦ s
  ]

  unfoldable pub on_processed : State R → ℕ → Option (Job R) → R → State R
  unfolding end_processing
  on_processed s n none result = s
  on_processed s n (some j) result = elim j.phase [
    | acquiring ↦ s
    | processing ↦ end_processing s n result
    | delivering r ↦ s
  ]

  unfoldable pub on_delivered : State R → ℕ → Option (Job R) → State R
  unfolding deliver
  on_delivered s n none = s
  on_delivered s n (some j) = elim j.phase [
    | acquiring ↦ s
    | processing ↦ s
    | delivering r ↦ deliver s n j r
  ]

  -- The loop over the orphans: the token is canceled and the key forgotten.
  unfoldable pub remove_orphans : List Key → State R → State R
  unfolding value_of remove_key cancel_token
  remove_orphans [] s = s
  remove_orphans (key ∷ rest) s = remove_orphans rest (record s {
    cancelled = cancel_token (value_of key s.tokens) s.cancelled;
    tokens = remove_key key s.tokens;
    pending = remove_key key s.pending;
  })

  unfoldable pub abandon_terrain_waiters : State R → ℕ → State R
  unfolding sweep remove_orphans ◌-ℤ◌
  abandon_terrain_waiters s socket =
      let w = sweep socket s.pending s.sockets in
      remove_orphans w.orphans (record s {
        pending = w.flights;
        sockets = w.still;
        pending_count = s.pending_count -ℤ pos (length w.gone);
        answers = s.answers ++ answer_all disconnected w.gone;
      })

  -- The destructor, for the terrain requests: the workers have ended, and their callbacks are dropped.
  -- The counters, which end with the object, are left as they are.
  unfoldable pub finish_pending : List (Key × List ℕ) → List (ℕ × Answer R)
  finish_pending [] = []
  finish_pending ((k, ws) ∷ rest) = answer_all stopping ws ++ finish_pending rest

  unfoldable pub destroy : State R → State R
  unfolding finish_pending
  destroy s = record s {
    shutting_down = true;
    pending = [];
    tokens = [];
    sockets = [];
    pending_count = pos 0;
    jobs = [];
    plain_jobs = 0;
    answers = s.answers ++ finish_pending s.pending;
  }

pub data Event (R : Type 0) : Type 0 where
  submit_tile submit_elevation : Text → Bool → Option ℕ → Event R
  submit_plain plain_ended : Event R
  submit_grid : Text → ℕ → ℕ → Bool → Option ℕ → Event R
  disconnect : ℕ → Event R
  acquired : ℕ → Bool → R → Event R
  processed : ℕ → R → Event R
  delivered : ℕ → Event R

unfoldable pub step : {R : Type 0} → State R → Event R → State R
unfolding submit_terrain_tile submit_terrain_elevation submit_terrain_grid submit_terrain_job
    end_plain abandon_terrain_waiters on_acquired on_processed on_delivered
step s (submit_tile text remote_job socket) = (submit_terrain_tile s text remote_job socket).0
step s (submit_elevation text remote_job socket) =
    (submit_terrain_elevation s text remote_job socket).0
step s (submit_grid text columns rows remote_job socket) =
    (submit_terrain_grid s text columns rows remote_job socket).0
step s submit_plain = (submit_terrain_job s).0
step s plain_ended = end_plain s
step s (disconnect socket) = abandon_terrain_waiters s socket
step s (acquired n ready failure) = on_acquired s n (nth n s.jobs) ready failure
step s (processed n result) = on_processed s n (nth n s.jobs) result
step s (delivered n) = on_delivered s n (nth n s.jobs)

unfoldable pub run : {R : Type 0} → State R → List (Event R) → State R
unfolding step
run s [] = s
run s (e ∷ rest) = run (step s e) rest
