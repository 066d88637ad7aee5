-- ===== src/Server/Runs.antt =====
-- server/server.cpp: the pending requests and the counters after any sequence of events.
use aowis_server_map.Prelude.{
  ℕ, zero, suc, ◌^◌, ◌<◌, ◌≡◌, refl, Bool, Option, none, some, List, [], ◌∷◌, All, inl, arith,
}
use aowis_server_map.Prelude.Int.{ℤ}
use aowis_server_map.Admission.Jobs
use aowis_server_map.Admission.Bytes
use aowis_server_map.Server.State.{
  tiles, elevations, Key, Phase, acquiring, processing, delivering, Job, disconnected, State, init,
}
use aowis_server_map.Server.Submit.{submit_terrain_tile, submit_terrain_elevation}
use aowis_server_map.Server.Waiters.{sweep}
use aowis_server_map.Server.Work.{
  nth, on_acquired, on_processed, on_delivered, remove_orphans, abandon_terrain_waiters, Event,
  end_one_of, end_plain, submit_plain, plain_ended, submit_tile, submit_elevation, submit_grid,
  disconnect, acquired, processed, delivered, step, run,
}
use aowis_server_map.Server.Counts.{Empty, sweep-orphans, Empty-removed}
use aowis_server_map.Server.Waiting.{sweep-Waiting, orphan-Waiting}
use aowis_server_map.Server.Invariant.{Valid, job-Valid, grid-Valid, plain-Valid}
use aowis_server_map.Server.Slots.{Fits-release}
use aowis_server_map.Server.Stages.{acquisition-Valid, processing-Valid, deliver-Valid}

module _ {R : Type 0} (m mr : ℤ) (mb : ℕ) (word : mb < 2 ^ 64) where
  abbrev W : State R → Type 0
  W = Valid m mr mb

  acquired-Valid :
      (s : State R) (n : ℕ) (o : Option (Job R)) (ready : Bool) (failure : R)
      → nth n s.jobs ≡ o
      → W s
      → W (on_acquired s n o ready failure)
  unfolding on_acquired
  acquired-Valid s n none ready failure at v = v
  acquired-Valid s n (some j) ready failure at v = go j.phase refl
    where
      go : (p : Phase R) → j.phase ≡ p → W (on_acquired s n (some j) ready failure)
      go acquiring e = rw e (acquisition-Valid m mr mb word s n j ready failure at e v)
      go processing e = rw e v
      go (delivering r) e = rw e v

  processed-Valid :
      (s : State R) (n : ℕ) (o : Option (Job R)) (result : R)
      → nth n s.jobs ≡ o
      → W s
      → W (on_processed s n o result)
  unfolding on_processed
  processed-Valid s n none result at v = v
  processed-Valid s n (some j) result at v = go j.phase refl
    where
      go : (p : Phase R) → j.phase ≡ p → W (on_processed s n (some j) result)
      go acquiring e = rw e v
      go processing e = rw e (processing-Valid m mr mb word s n j result at e v)
      go (delivering r) e = rw e v

  delivered-Valid :
      (s : State R) (n : ℕ) (o : Option (Job R)) → nth n s.jobs ≡ o → W s → W (on_delivered s n o)
  unfolding on_delivered
  delivered-Valid s n none at v = v
  delivered-Valid s n (some j) at v = go j.phase refl
    where
      go : (p : Phase R) → j.phase ≡ p → W (on_delivered s n (some j))
      go acquiring e = rw e v
      go processing e = rw e v
      go (delivering r) e = rw e (deliver-Valid m mr mb word s n j r at e v)

  orphans-Valid :
      (os : List Key) (s : State R) → All (Empty s.pending) os → W s → W (remove_orphans os s)
  unfolding remove_orphans
  orphans-Valid [] s h v = v
  orphans-Valid (o ∷ os) s h v =
      orphans-Valid os _ (Empty-removed o os s.pending v.waiting.distinct h.1) (record {
        waiting = orphan-Waiting s.pending s.pending_count s.answers s.fresh v.waiting o h.0;
        slots = v.slots;
      })

  abandon-Valid : (s : State R) (socket : ℕ) → W s → W (abandon_terrain_waiters s socket)
  unfolding abandon_terrain_waiters
  abandon-Valid s socket v =
      orphans-Valid (sweep socket s.pending s.sockets).orphans _
        (sweep-orphans socket s.pending s.sockets v.waiting.distinct)
        (record {
          waiting =
              sweep-Waiting s.pending s.pending_count s.answers s.fresh v.waiting socket s.sockets
                disconnected;
          slots = v.slots;
        })

  one_ended-Valid : (s : State R) (n : ℕ) → s.plain_jobs ≡ n → W s → W (end_one_of s n)
  unfolding end_one_of
  one_ended-Valid s zero e v = v
  one_ended-Valid s (suc n) e v = record {
    waiting = v.waiting;
    slots = record {
      overall = Fits-release m s.admission _ _ (omega (arith, e)) v.slots.overall;
      remote = v.slots.remote;
      grids = v.slots.grids;
    };
  }

  plain_ended-Valid : (s : State R) → W s → W (end_plain s)
  unfolding end_plain
  plain_ended-Valid s v = one_ended-Valid s s.plain_jobs refl v

  pub step-Valid : (s : State R) (e : Event R) → W s → W (step s e)
  unfolding step submit_terrain_tile submit_terrain_elevation
  step-Valid s (submit_tile text remote_job socket) v =
      job-Valid m mr mb word s (record { registry = tiles; text = text }) remote_job socket v
  step-Valid s (submit_elevation text remote_job socket) v =
      job-Valid m mr mb word s (record { registry = elevations; text = text }) remote_job socket v
  step-Valid s (submit_grid text columns rows remote_job socket) v =
      grid-Valid m mr mb word s text columns rows remote_job socket v
  step-Valid s submit_plain v = plain-Valid m mr mb word s v
  step-Valid s plain_ended v = plain_ended-Valid s v
  step-Valid s (disconnect socket) v = abandon-Valid s socket v
  step-Valid s (acquired n ready failure) v = acquired-Valid s n (nth n s.jobs) ready failure refl v
  step-Valid s (processed n result) v = processed-Valid s n (nth n s.jobs) result refl v
  step-Valid s (delivered n) v = delivered-Valid s n (nth n s.jobs) refl v

  runs_from-Valid : (events : List (Event R)) (s : State R) → W s → W (run s events)
  unfolding run
  runs_from-Valid [] s v = v
  runs_from-Valid (e ∷ rest) s v = runs_from-Valid rest (step s e) (step-Valid s e v)

  init-Valid : (maximum_pending : ℤ) → W (init maximum_pending m mr mb)
  unfolding init Jobs.init Bytes.init
  init-Valid maximum_pending = record {
    waiting = record { distinct = tt; counted = refl; answered = λ q. ground arith };
    slots = record {
      overall = record { maximum = refl; counted = refl; bounded = inl refl };
      remote = record { maximum = refl; counted = refl; bounded = inl refl };
      grids = record { maximum = refl; counted = refl; bounded = omega arith };
    };
  }

  -- From the start, on any sequence of requests for tiles, elevations, grids and plain jobs, of
  -- disconnections, and of the stages of the jobs, with any results, if the maximum of bytes fits 64 bits: the keys
  -- that wait are distinct; the count of pending requests is the number of promises that wait; every
  -- promise that was made waits once or has been answered once; and the three counters are exactly
  -- the slots and the bytes of the jobs in flight, within their maxima.
  pub run-Valid :
      (maximum_pending : ℤ) (events : List (Event R))
      → Valid m mr mb (run (init maximum_pending m mr mb) events)
  run-Valid maximum_pending events = runs_from-Valid events _ (init-Valid maximum_pending)
