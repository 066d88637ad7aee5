-- ===== src/Server/Stale.antt =====
-- server/server.cpp: what the callbacks do, those of the abandoned jobs included.
use aowis_server_map.Prelude.{
  ℕ, ◌≡◌, refl, true, Option, none, some, List, ◌++◌, arith, ◌⊎◌, inl, inr, Bool-cases,
}
use aowis_server_map.Prelude.Int.{ℤ}
use aowis_server_map.Server.State.{
  Phase, acquiring, processing, delivering, Job, State, init, outcome, value_of, remove_key,
  waiters_of, answer_all,
}
use aowis_server_map.Server.Waiters.{is_current}
use aowis_server_map.Server.Work.{nth, drain, deliver, on_delivered, Event, delivered, step, run}
use aowis_server_map.Server.Attended.{Attended}
use aowis_server_map.Server.FlightRuns.{run-Attended}
use aowis_server_map.Server.Tracks.{Lasting, Moves-Lasting, run-Tracks}
use aowis_server_map.Server.Steps.{run-Moves}

is_current→eq : (t : ℕ) (o : Option ℕ) → is_current t o ≡ true → o ≡ some t
is_current→eq t none h = ground (arith, h)
is_current→eq t (some u) h = ground (arith, h)

module _ {R : Type 0} where
  -- The keys, tokens and promises that wait, and the answers, stay as they are.
  pub record Untouched (s s' : State R) : Type 0 where
    pub pending : s'.pending ≡ s.pending
    pub tokens : s'.tokens ≡ s.tokens
    pub answers : s'.answers ≡ s.answers

  -- The callback of the job whose token the key has: the wait ends with its result.
  pub record Ended (s s' : State R) (j : Job R) : Type 0 where
    pub current : value_of j.key s.tokens ≡ some j.token
    pub result : R
    pub stage : j.phase ≡ delivering result
    pub pending : s'.pending ≡ remove_key j.key s.pending
    pub tokens : s'.tokens ≡ remove_key j.key s.tokens
    pub answers : s'.answers ≡ s.answers ++ answer_all (outcome result) (waiters_of j.key s.pending)

  abbrev pub Delivers : State R → State R → Option (Job R) → Type 0
  Delivers s s' none = s' ≡ s
  Delivers s s' (some j) = Untouched s s' ⊎ Ended s s' j

  deliver-Delivers :
      (s : State R) (n : ℕ) (j : Job R) (r : R)
      → j.phase ≡ delivering r
      → Delivers s (deliver s n j r) (some j)
  unfolding deliver drain
  deliver-Delivers s n j r at = elim (Bool-cases (is_current j.token (value_of j.key s.tokens))) [
    | inl e ↦ rw e (
        inr (record {
          current = is_current→eq _ _ e;
          result = r;
          stage = at;
          pending = refl;
          tokens = refl;
          answers = refl;
        }))
    | inr e ↦ rw e (inl (record { pending = refl; tokens = refl; answers = refl }))
  ]

  delivered-Delivers :
      (s : State R) (n : ℕ) (o : Option (Job R)) → Delivers s (on_delivered s n o) o
  unfolding on_delivered
  delivered-Delivers s n none = refl
  delivered-Delivers s n (some j) = go j.phase refl
    where
      untouched : Delivers s s (some j)
      untouched = inl (record { pending = refl; tokens = refl; answers = refl })

      go : (p : Phase R) → j.phase ≡ p → Delivers s (on_delivered s n (some j)) (some j)
      go acquiring e = simp e untouched
      go processing e = simp e untouched
      go (delivering r) e = simp e (deliver-Delivers s n j r e)

  step-Delivers : (s : State R) (n : ℕ) → Delivers s (step s (delivered n)) (nth n s.jobs)
  unfolding step
  step-Delivers s n = delivered-Delivers s n (nth n s.jobs)

  -- From the start, after any events and at any later time: the keys that wait are distinct, and each
  -- has a token and a job in flight with that key and that token; each job in flight has the token of
  -- its key, or a token that no key has later; and a callback ends only the wait of the key whose
  -- token its job has, with its result for all that wait, and else touches no waiting key, token or
  -- answer. So a job that is once without its key's token ends no wait from then on.
  pub run-Delivers :
      (maximum_pending maximum_jobs maximum_remote : ℤ) (maximum_bytes : ℕ)
      (events later : List (Event R)) (n : ℕ)
      → let s = run (init maximum_pending maximum_jobs maximum_remote maximum_bytes) events in
        let s' = run s later in
        Attended s × Lasting s s' × Delivers s' (step s' (delivered n)) (nth n s'.jobs)
  run-Delivers maximum_pending maximum_jobs maximum_remote maximum_bytes events later n =
      let s : State R =
        run (init maximum_pending maximum_jobs maximum_remote maximum_bytes) events in
      (
        run-Attended maximum_pending maximum_jobs maximum_remote maximum_bytes events,
        Moves-Lasting s (run s later) (run-Moves later s)
            (run-Tracks maximum_pending maximum_jobs maximum_remote maximum_bytes events),
        step-Delivers (run s later) n,
      )
