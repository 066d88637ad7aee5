-- ===== src/Server/FlightRuns.antt =====
-- server/server.cpp: the keys that wait and their jobs, over sequences of events.
use aowis_server_map.Prelude.{
  ℕ, zero, suc, ◌≡◌, refl, sym, subst, ◌∙◌, Bool, true, false, Option, none, some, List, [], ◌∷◌,
  inl, inr, arith, Bool-cases,
}
use aowis_server_map.Prelude.Int.{ℤ}
use aowis_server_map.Admission.Jobs
use aowis_server_map.Server.State.{
  tiles, elevations, Key, same_key, Phase, acquiring, processing, delivering, Job, State, init,
  contains_key, value_of, remove_key,
}
use aowis_server_map.Server.Submit.{
  start_plain, submit_terrain_job, submit_terrain_tile, submit_terrain_elevation,
}
use aowis_server_map.Server.Waiters.{sweep, is_current}
use aowis_server_map.Server.Work.{
  nth, delete, end_processing, drain, deliver, on_acquired, on_processed, on_delivered,
  remove_orphans, abandon_terrain_waiters, Event, end_one_of, end_plain, submit_plain, plain_ended,
  submit_tile, submit_elevation, submit_grid, disconnect, acquired, processed, delivered, step, run,
}
use aowis_server_map.Server.Counts.{
  same_key_self, Distinct, remove_key-Distinct, contains_key-sweep, sweep-Distinct,
}
use aowis_server_map.Server.Flights.{
  recount, job-Attended, grid-Attended, changed-Attended, acquisition-Attended, removed-Attended,
}
use aowis_server_map.Server.Attended.{
  value_of-remove_key, contains_key-remove_key, HasJob-delete, Attended,
}

module _ {R : Type 0} where
  -- The callback of the current job removes its key; the callback of another job is not missed.
  drained-Attended :
      (s s' : State R) (n : ℕ) (j : Job R)
      → nth n s.jobs ≡ some j
      → s'.pending ≡ remove_key j.key s.pending
      → s'.tokens ≡ remove_key j.key s.tokens
      → s'.jobs ≡ delete n s.jobs
      → Attended s
      → Attended s'
  drained-Attended s s' n j at p t js v = record {
    distinct = rw p (remove_key-Distinct j.key s.pending v.distinct);
    attends = λ q h.
        let (apart, there) = contains_key-remove_key q j.key s.pending v.distinct (rw p at h) in
        let old = v.attends q there in
        rw (t, js)
          (record {
            token = old.token;
            current = value_of-remove_key q j.key s.tokens apart ∙ old.current;
            job =
                HasJob-delete q old.token n s.jobs j at
                  (λ k e.
                    let same : same_key j.key q ≡ true =
                      subst (λ o. same_key j.key o ≡ true) k (same_key_self j.key) in
                    ground (arith, same, apart))
                  old.job;
          });
  }

  stale-Attended :
      (s s' : State R) (n : ℕ) (j : Job R)
      → nth n s.jobs ≡ some j
      → is_current j.token (value_of j.key s.tokens) ≡ false
      → s'.pending ≡ s.pending
      → s'.tokens ≡ s.tokens
      → s'.jobs ≡ delete n s.jobs
      → Attended s
      → Attended s'
  stale-Attended s s' n j at stale p t js v = record {
    distinct = subst Distinct (sym p) v.distinct;
    attends = λ q h.
        let old = v.attends q (subst (λ l. contains_key q l ≡ true) p h) in
        rw (t, js)
          (record {
            token = old.token;
            current = old.current;
            job =
                HasJob-delete q old.token n s.jobs j at
                  (λ k e.
                    let found : value_of j.key s.tokens ≡ some old.token =
                      subst (λ o. value_of o s.tokens ≡ some old.token) (sym k) old.current in
                    ground (arith, found, stale, e))
                  old.job;
          });
  }

  deliver-Attended :
      (s : State R) (n : ℕ) (j : Job R) (r : R)
      → nth n s.jobs ≡ some j
      → Attended s
      → Attended (deliver s n j r)
  unfolding deliver drain
  deliver-Attended s n j r at v = elim (Bool-cases (is_current j.token (value_of j.key s.tokens))) [
    | inl e ↦ rw e (drained-Attended s _ n j at refl refl refl v)
    | inr e ↦ rw e (stale-Attended s _ n j at e refl refl refl v)
  ]

  acquired-Attended :
      (s : State R) (n : ℕ) (o : Option (Job R)) (ready : Bool) (failure : R)
      → Attended s
      → Attended (on_acquired s n o ready failure)
  unfolding on_acquired
  acquired-Attended s n none ready failure v = v
  acquired-Attended s n (some j) ready failure v = go j.phase refl
    where
      go : (p : Phase R) → j.phase ≡ p → Attended (on_acquired s n (some j) ready failure)
      go acquiring e = rw e (acquisition-Attended s n j ready failure v)
      go processing e = rw e v
      go (delivering r) e = rw e v

  processed-Attended :
      (s : State R) (n : ℕ) (o : Option (Job R)) (result : R)
      → Attended s
      → Attended (on_processed s n o result)
  unfolding on_processed end_processing
  processed-Attended s n none result v = v
  processed-Attended s n (some j) result v = go j.phase refl
    where
      go : (p : Phase R) → j.phase ≡ p → Attended (on_processed s n (some j) result)
      go acquiring e = rw e v
      go processing e = rw e (changed-Attended s _ n (delivering result) refl refl refl v)
      go (delivering r) e = rw e v

  delivered-Attended :
      (s : State R) (n : ℕ) (o : Option (Job R))
      → nth n s.jobs ≡ o
      → Attended s
      → Attended (on_delivered s n o)
  unfolding on_delivered
  delivered-Attended s n none at v = v
  delivered-Attended s n (some j) at v = go j.phase refl
    where
      go : (p : Phase R) → j.phase ≡ p → Attended (on_delivered s n (some j))
      go acquiring e = rw e v
      go processing e = rw e v
      go (delivering r) e = rw e (deliver-Attended s n j r at v)

  orphans-Attended : (os : List Key) (s : State R) → Attended s → Attended (remove_orphans os s)
  unfolding remove_orphans
  orphans-Attended [] s v = v
  orphans-Attended (o ∷ os) s v = orphans-Attended os _ (removed-Attended s _ o refl refl refl v)

  abandon-Attended :
      (s : State R) (socket : ℕ) → Attended s → Attended (abandon_terrain_waiters s socket)
  unfolding abandon_terrain_waiters
  abandon-Attended s socket v =
      orphans-Attended (sweep socket s.pending s.sockets).orphans _ (record {
        distinct = sweep-Distinct socket s.pending s.sockets v.distinct;
        attends = λ q h. v.attends q (sym (contains_key-sweep q socket s.pending s.sockets) ∙ h);
      })

  started-Attended :
      (s : State R) (stopping : Bool) → Attended s → Attended (start_plain s stopping).0
  unfolding start_plain
  started-Attended s true v = v
  started-Attended s false v = elim (Bool-cases (Jobs.try_acquire s.admission).1) [
    | inl g ↦ rw g (recount s _ refl refl refl v)
    | inr g ↦ rw g (recount s _ refl refl refl v)
  ]

  one_ended-Attended : (s : State R) (n : ℕ) → Attended s → Attended (end_one_of s n)
  unfolding end_one_of
  one_ended-Attended s zero v = v
  one_ended-Attended s (suc n) v = recount s _ refl refl refl v

  pub step-Attended : (s : State R) (e : Event R) → Attended s → Attended (step s e)
  unfolding step submit_terrain_tile submit_terrain_elevation submit_terrain_job end_plain
  step-Attended s (submit_tile text remote_job socket) v =
      job-Attended s (record { registry = tiles; text = text }) remote_job socket v
  step-Attended s (submit_elevation text remote_job socket) v =
      job-Attended s (record { registry = elevations; text = text }) remote_job socket v
  step-Attended s (submit_grid text columns rows remote_job socket) v =
      grid-Attended s text columns rows remote_job socket v
  step-Attended s submit_plain v = started-Attended s s.shutting_down v
  step-Attended s plain_ended v = one_ended-Attended s s.plain_jobs v
  step-Attended s (disconnect socket) v = abandon-Attended s socket v
  step-Attended s (acquired n ready failure) v =
      acquired-Attended s n (nth n s.jobs) ready failure v
  step-Attended s (processed n result) v = processed-Attended s n (nth n s.jobs) result v
  step-Attended s (delivered n) v = delivered-Attended s n (nth n s.jobs) refl v

  runs_from-Attended :
      (events : List (Event R)) (s : State R) → Attended s → Attended (run s events)
  unfolding run
  runs_from-Attended [] s v = v
  runs_from-Attended (e ∷ rest) s v = runs_from-Attended rest (step s e) (step-Attended s e v)

  -- From the start, after any sequence of events, the keys that wait are distinct, and each of them
  -- has a current cancellation token and a job in flight with that key and that token.
  pub run-Attended :
      (maximum_pending maximum_jobs maximum_remote : ℤ) (maximum_bytes : ℕ)
      (events : List (Event R))
      → Attended (run (init maximum_pending maximum_jobs maximum_remote maximum_bytes) events)
  unfolding init
  run-Attended maximum_pending maximum_jobs maximum_remote maximum_bytes events =
      runs_from-Attended events (init maximum_pending maximum_jobs maximum_remote maximum_bytes)
        (record { distinct = tt; attends = λ q h. absurd (none_waits q h) })
    where
      none_waits : (q : Key) → contains_key {V = List ℕ} q [] ≡ true → ⊥
      none_waits q h = unfold contains_key in ground (arith, h)
