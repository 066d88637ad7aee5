-- ===== src/Server/Steps.antt =====
-- server/server.cpp: how each event moves the tokens and the jobs in flight.
use aowis_server_map.Prelude.{
  ℕ, zero, suc, ◌≡◌, refl, Bool, true, false, not, ◌&&◌, Option, none, some, List, [], ◌∷◌, inl,
  inr, Bool-cases,
}
use aowis_server_map.Admission.Jobs
use aowis_server_map.Server.State.{
  tiles, elevations, Key, Phase, acquiring, processing, delivering, Job, State, value_of,
}
use aowis_server_map.Server.Submit.{
  start_plain, submit_terrain_job, submit_terrain_tile, submit_terrain_elevation,
}
use aowis_server_map.Server.Waiters.{holds, is_current, sweep}
use aowis_server_map.Server.Work.{
  nth, delete, end_acquisition, end_processing, drain, deliver, on_acquired, on_processed,
  on_delivered, remove_orphans, abandon_terrain_waiters, Event, end_one_of, end_plain, submit_plain,
  plain_ended, submit_tile, submit_elevation, submit_grid, disconnect, acquired, processed,
  delivered, step, run,
}
use aowis_server_map.Server.Moves.{
  Moves, goes_on, ends, forgets, both, still, recounted, job-Moves, grid-Moves,
}

module _ {R : Type 0} where
  acquisition-Moves :
      (s : State R) (n : ℕ) (j : Job R) (ready : Bool) (failure : R)
      → Moves s (end_acquisition s n j ready failure)
  unfolding end_acquisition
  acquisition-Moves s n j ready failure =
      elim (Bool-cases (ready && not (holds j.token s.cancelled))) [
        | inl e ↦ rw e (goes_on s _ n processing refl refl refl)
        | inr e ↦ rw e (goes_on s _ n (delivering failure) refl refl refl)
      ]

  acquired-Moves :
      (s : State R) (n : ℕ) (o : Option (Job R)) (ready : Bool) (failure : R)
      → Moves s (on_acquired s n o ready failure)
  unfolding on_acquired
  acquired-Moves s n none ready failure = still s
  acquired-Moves s n (some j) ready failure = go j.phase refl
    where
      go : (p : Phase R) → j.phase ≡ p → Moves s (on_acquired s n (some j) ready failure)
      go acquiring e = rw e (acquisition-Moves s n j ready failure)
      go processing e = rw e (still s)
      go (delivering r) e = rw e (still s)

  processed-Moves :
      (s : State R) (n : ℕ) (o : Option (Job R)) (result : R) → Moves s (on_processed s n o result)
  unfolding on_processed end_processing
  processed-Moves s n none result = still s
  processed-Moves s n (some j) result = go j.phase refl
    where
      go : (p : Phase R) → j.phase ≡ p → Moves s (on_processed s n (some j) result)
      go acquiring e = rw e (still s)
      go processing e = rw e (goes_on s _ n (delivering result) refl refl refl)
      go (delivering r) e = rw e (still s)

  deliver-Moves : (s : State R) (n : ℕ) (j : Job R) (r : R) → Moves s (deliver s n j r)
  unfolding deliver drain
  deliver-Moves s n j r = elim (Bool-cases (is_current j.token (value_of j.key s.tokens))) [
    | inl e ↦ rw e (
        both s (record s { jobs = delete n s.jobs }) _ (ends s _ n refl refl refl)
          (forgets _ _ j.key refl refl refl))
    | inr e ↦ rw e (ends s _ n refl refl refl)
  ]

  delivered-Moves : (s : State R) (n : ℕ) (o : Option (Job R)) → Moves s (on_delivered s n o)
  unfolding on_delivered
  delivered-Moves s n none = still s
  delivered-Moves s n (some j) = go j.phase refl
    where
      go : (p : Phase R) → j.phase ≡ p → Moves s (on_delivered s n (some j))
      go acquiring e = rw e (still s)
      go processing e = rw e (still s)
      go (delivering r) e = rw e (deliver-Moves s n j r)

  orphans-Moves : (os : List Key) (s s' : State R) → Moves s s' → Moves s (remove_orphans os s')
  unfolding remove_orphans
  orphans-Moves [] s s' m = m
  orphans-Moves (o ∷ os) s s' m =
      orphans-Moves os s _ (both s s' _ m (forgets s' _ o refl refl refl))

  abandon-Moves : (s : State R) (socket : ℕ) → Moves s (abandon_terrain_waiters s socket)
  unfolding abandon_terrain_waiters
  abandon-Moves s socket =
      orphans-Moves (sweep socket s.pending s.sockets).orphans s _ (recounted s _ refl refl refl)

  started-Moves : (s : State R) (stopping : Bool) → Moves s (start_plain s stopping).0
  unfolding start_plain
  started-Moves s true = still s
  started-Moves s false = elim (Bool-cases (Jobs.try_acquire s.admission).1) [
    | inl g ↦ rw g (recounted s _ refl refl refl)
    | inr g ↦ rw g (recounted s _ refl refl refl)
  ]

  one_ended-Moves : (s : State R) (n : ℕ) → Moves s (end_one_of s n)
  unfolding end_one_of
  one_ended-Moves s zero = still s
  one_ended-Moves s (suc n) = recounted s _ refl refl refl

  pub step-Moves : (s : State R) (e : Event R) → Moves s (step s e)
  unfolding step submit_terrain_tile submit_terrain_elevation submit_terrain_job end_plain
  step-Moves s (submit_tile text remote_job socket) =
      job-Moves s (record { registry = tiles; text = text }) remote_job socket
  step-Moves s (submit_elevation text remote_job socket) =
      job-Moves s (record { registry = elevations; text = text }) remote_job socket
  step-Moves s (submit_grid text columns rows remote_job socket) =
      grid-Moves s text columns rows remote_job socket
  step-Moves s submit_plain = started-Moves s s.shutting_down
  step-Moves s plain_ended = one_ended-Moves s s.plain_jobs
  step-Moves s (disconnect socket) = abandon-Moves s socket
  step-Moves s (acquired n ready failure) = acquired-Moves s n (nth n s.jobs) ready failure
  step-Moves s (processed n result) = processed-Moves s n (nth n s.jobs) result
  step-Moves s (delivered n) = delivered-Moves s n (nth n s.jobs)

  pub run-Moves : (events : List (Event R)) (s : State R) → Moves s (run s events)
  unfolding run
  run-Moves [] s = still s
  run-Moves (e ∷ rest) s = both s (step s e) _ (step-Moves s e) (run-Moves rest (step s e))
