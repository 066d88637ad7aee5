-- ===== src/Server/Flights.antt =====
-- server/server.cpp: what a step does to the keys that wait, their tokens and their jobs.
use aowis_server_map.Prelude.{
  ℕ, ◌≡◌, refl, sym, subst, ◌∙◌, Bool, true, not, ◌&&◌, Option, Text, inl, inr, Bool-cases,
}
use aowis_server_map.Admission.Bytes
use aowis_server_map.Server.State.{
  grids, Key, Phase, processing, delivering, Job, State, contains_key, remove_key,
}
use aowis_server_map.Server.Submit.{
  Admitted, admit_job, has_room, launch_admitted, submit_existing, submit_job, estimated_bytes,
  launch_grid, submit_new_grid, submit_terrain_grid,
}
use aowis_server_map.Server.Waiters.{holds}
use aowis_server_map.Server.Work.{change, end_acquisition}
use aowis_server_map.Server.Counts.{Distinct, remove_key-Distinct}
use aowis_server_map.Server.Attended.{
  value_of-remove_key, contains_key-remove_key, HasJob-change, Attended, join-Attended,
  launch-Attended,
}

module _ {R : Type 0} where
  -- The counters do not matter here.
  pub recount :
      (s s' : State R)
      → s'.pending ≡ s.pending
      → s'.tokens ≡ s.tokens
      → s'.jobs ≡ s.jobs
      → Attended s
      → Attended s'
  recount s s' p t j v = record {
    distinct = subst Distinct (sym p) v.distinct;
    attends = λ key h. rw (t, j) (v.attends key (subst (λ l. contains_key key l ≡ true) p h));
  }

  existing-Attended :
      (s : State R) (key : Key) (socket : Option ℕ)
      → contains_key key s.pending ≡ true
      → Attended s
      → Attended (submit_existing s key socket).0
  unfolding submit_existing
  existing-Attended s key socket there v = elim (Bool-cases (has_room s)) [
    | inl e ↦ rw e (join-Attended s key socket there v)
    | inr e ↦ rw e v
  ]

  admitted-Attended :
      (s : State R) (x : Admitted) (key : Key) (remote_job : Bool) (socket : Option ℕ)
      → Attended s
      → Attended (launch_admitted s x key remote_job 0 socket).0
  unfolding launch_admitted
  admitted-Attended s x key remote_job socket v =
      let w : Attended (record s { admission = x.admission; remote = x.remote }) =
        recount s _ refl refl refl v in
      elim (Bool-cases x.granted) [
        | inl e ↦ rw e (launch-Attended _ key remote_job 0 socket w)
        | inr e ↦ rw e w
      ]

  pub job-Attended :
      (s : State R) (key : Key) (remote_job : Bool) (socket : Option ℕ)
      → Attended s
      → Attended (submit_job s key remote_job socket).0
  unfolding submit_job
  job-Attended s key remote_job socket v = elim (Bool-cases (contains_key key s.pending)) [
    | inl e ↦ rw e (existing-Attended s key socket e v)
    | inr e ↦ rw e (elim (Bool-cases (has_room s)) [
      | inl f ↦
          rw f (
            admitted-Attended s (admit_job s.admission s.remote remote_job) key remote_job socket v)
      | inr f ↦ rw f v
    ])
  ]

  grid_launched-Attended :
      (s : State R) (b : Bytes.TerrainByteAdmission) (x : Admitted) (key : Key) (remote_job : Bool)
      (bytes : ℕ) (socket : Option ℕ)
      → Attended s
      → Attended (launch_grid s b x key remote_job bytes socket).0
  unfolding launch_grid
  grid_launched-Attended s b x key remote_job bytes socket v = elim (Bool-cases x.granted) [
    | inl e ↦ rw e (launch-Attended _ key remote_job bytes socket (recount s _ refl refl refl v))
    | inr e ↦ rw e (recount s _ refl refl refl v)
  ]

  pub grid-Attended :
      (s : State R) (text : Text) (columns rows : ℕ) (remote_job : Bool) (socket : Option ℕ)
      → Attended s
      → Attended (submit_terrain_grid s text columns rows remote_job socket).0
  unfolding submit_terrain_grid submit_new_grid
  grid-Attended s text columns rows remote_job socket v =
      let key : Key = record { registry = grids; text = text } in
      let bytes : ℕ = estimated_bytes columns rows in
      elim (Bool-cases (contains_key key s.pending)) [
        | inl e ↦ rw e (existing-Attended s key socket e v)
        | inr e ↦ rw e (elim (Bool-cases (has_room s)) [
          | inr f ↦ rw f v
          | inl f ↦ rw f (elim (Bool-cases (Bytes.try_acquire s.grid_bytes bytes).1) [
            | inl g ↦ rw g (
                grid_launched-Attended s (Bytes.try_acquire s.grid_bytes bytes).0
                  (admit_job s.admission s.remote remote_job) key remote_job bytes socket v)
            | inr g ↦ rw g v
          ])
        ])
      ]

  -- A job that goes to another stage is still the job of its key.
  pub changed-Attended :
      (s s' : State R) (n : ℕ) (phase : Phase R)
      → s'.pending ≡ s.pending
      → s'.tokens ≡ s.tokens
      → s'.jobs ≡ change n phase s.jobs
      → Attended s
      → Attended s'
  changed-Attended s s' n phase p t j v = record {
    distinct = subst Distinct (sym p) v.distinct;
    attends = λ key h.
        let old = v.attends key (subst (λ l. contains_key key l ≡ true) p h) in
        rw (t, j)
          (record {
            token = old.token;
            current = old.current;
            job = HasJob-change key old.token n phase s.jobs old.job;
          });
  }

  pub acquisition-Attended :
      (s : State R) (n : ℕ) (j : Job R) (ready : Bool) (failure : R)
      → Attended s
      → Attended (end_acquisition s n j ready failure)
  unfolding end_acquisition
  acquisition-Attended s n j ready failure v =
      elim (Bool-cases (ready && not (holds j.token s.cancelled))) [
        | inl e ↦ rw e (changed-Attended s _ n processing refl refl refl v)
        | inr e ↦ rw e (changed-Attended s _ n (delivering failure) refl refl refl v)
      ]

  -- A key that is removed together with its token.
  pub removed-Attended :
      (s s' : State R) (key : Key)
      → s'.pending ≡ remove_key key s.pending
      → s'.tokens ≡ remove_key key s.tokens
      → s'.jobs ≡ s.jobs
      → Attended s
      → Attended s'
  removed-Attended s s' key p t j v = record {
    distinct = rw p (remove_key-Distinct key s.pending v.distinct);
    attends = λ q h.
        let (apart, there) = contains_key-remove_key q key s.pending v.distinct (rw p at h) in
        let old = v.attends q there in
        rw (t, j)
          (record {
            token = old.token;
            current = value_of-remove_key q key s.tokens apart ∙ old.current;
            job = old.job;
          });
  }
