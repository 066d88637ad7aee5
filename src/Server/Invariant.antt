-- ===== src/Server/Invariant.antt =====
-- server/server.cpp: the pending requests and the counters, and what a submission leaves of them.
use aowis_server_map.Prelude.{
  ℕ, ◌+◌, ◌^◌, ◌<◌, ◌≡◌, refl, sym, ap, subst, Bool, true, false, Option, List, [], ◌∷◌, ◌++◌, Text,
  if◌then◌else◌, inl, inr, arith, Bool-cases,
}
use aowis_server_map.Prelude.Int.{ℤ}
use aowis_server_map.Admission.Jobs
use aowis_server_map.Admission.Bytes
use aowis_server_map.Admission.Jobs.Invariant.{Fits}
use aowis_server_map.Admission.Bytes.Invariant
use aowis_server_map.Server.State.{grids, Key, acquiring, processing, Job, State, contains_key}
use aowis_server_map.Server.Submit.{
  Admitted, admit_job, has_room, join, launch, launch_admitted, submit_existing, submit_job,
  start_plain, submit_terrain_job, estimated_bytes, launch_grid, submit_new_grid,
  submit_terrain_grid,
}
use aowis_server_map.Server.Waiting.{Waiting, join-Waiting}
use aowis_server_map.Server.Admits.{taken, Admits, admits, refuses, admit_job-Admits}
use aowis_server_map.Server.Slots.{
  overall_slots, remote_slots, sum_jobs, sum_jobs-append, Fits-try_acquire, Fits-try_reserve,
  Fits-release_bytes,
}

module _ {R : Type 0} where
  -- The counters: slots for the jobs by their stage, and the bytes of the grids until their callback.
  pub record Counted (m mr : ℤ) (mb : ℕ) (a r : Jobs.TerrainAdmission)
      (b : Bytes.TerrainByteAdmission) (jobs : List (Job R)) (plain : ℕ) : Type 0 where
    pub overall : Fits m a (plain + sum_jobs (λ j. overall_slots j.phase) jobs)
    pub remote : Fits mr r (sum_jobs (λ j. remote_slots j.phase) jobs)
    pub grids : Bytes.Invariant.Fits mb b (sum_jobs (λ j. j.bytes) jobs)

  pub record Valid (m mr : ℤ) (mb : ℕ) (s : State R) : Type 0 where
    pub waiting : Waiting s.pending s.pending_count s.answers s.fresh
    pub slots : Counted m mr mb s.admission s.remote s.grid_bytes s.jobs s.plain_jobs

  module _ (m mr : ℤ) (mb : ℕ) (word : mb < 2 ^ 64) where
    abbrev pub V : State R → Type 0
    V = Valid m mr mb

    -- A new job takes the slots that it was admitted to.
    pub Counted-append :
        (a r : Jobs.TerrainAdmission) (b : Bytes.TerrainByteAdmission) (jobs : List (Job R))
        (plain : ℕ) (remote_job : Bool) (j : Job R)
        → j.phase ≡ (if remote_job then acquiring else processing)
        → Fits m a (plain + sum_jobs (λ j. overall_slots j.phase) jobs + 1)
        → Fits mr r (sum_jobs (λ j. remote_slots j.phase) jobs + taken remote_job)
        → Bytes.Invariant.Fits mb b (sum_jobs (λ j. j.bytes) jobs + j.bytes)
        → Counted m mr mb a r b (jobs ++ (j ∷ [])) plain
    Counted-append a r b jobs plain remote_job j e fa fr fb = record {
      overall = subst (Fits m a) (one_more remote_job e) fa;
      remote = subst (Fits mr r) (some_more remote_job e) fr;
      grids = subst (Bytes.Invariant.Fits mb b) (sym (sum_jobs-append (λ j. j.bytes) jobs j)) fb;
    }
      where
        one_more :
            (remote_job : Bool)
            → j.phase ≡ (if remote_job then acquiring else processing)
            → plain + sum_jobs (λ j. overall_slots j.phase) jobs + 1
              ≡ plain + sum_jobs (λ j. overall_slots j.phase) (jobs ++ (j ∷ []))
        one_more true e =
            omega (arith, sum_jobs-append (λ j. overall_slots j.phase) jobs j, ap overall_slots e)
        one_more false e =
            omega (arith, sum_jobs-append (λ j. overall_slots j.phase) jobs j, ap overall_slots e)

        some_more :
            (remote_job : Bool)
            → j.phase ≡ (if remote_job then acquiring else processing)
            → sum_jobs (λ j. remote_slots j.phase) jobs + taken remote_job
              ≡ sum_jobs (λ j. remote_slots j.phase) (jobs ++ (j ∷ []))
        some_more true e =
            omega (arith, sum_jobs-append (λ j. remote_slots j.phase) jobs j, ap remote_slots e)
        some_more false e =
            omega (arith, sum_jobs-append (λ j. remote_slots j.phase) jobs j, ap remote_slots e)

    pub join-Valid : (s : State R) (key : Key) (socket : Option ℕ) → V s → V (join s key socket)
    unfolding join
    join-Valid s key socket v = record {
      waiting = join-Waiting s.pending s.pending_count s.answers s.fresh v.waiting key;
      slots = v.slots;
    }

    pub existing-Valid :
        (s : State R) (key : Key) (socket : Option ℕ) → V s → V (submit_existing s key socket).0
    unfolding submit_existing
    existing-Valid s key socket v = elim (Bool-cases (has_room s)) [
      | inl e ↦ rw e (join-Valid s key socket v)
      | inr e ↦ rw e v
    ]

    launch_admitted-Valid :
        (s : State R) (x : Admitted) (key : Key) (remote_job : Bool) (socket : Option ℕ)
        → V s
        → Admits s.admission s.remote remote_job m mr
            (s.plain_jobs + sum_jobs (λ j. overall_slots j.phase) s.jobs)
            (sum_jobs (λ j. remote_slots j.phase) s.jobs)
            x
        → V (launch_admitted s x key remote_job 0 socket).0
    unfolding launch_admitted launch join
    launch_admitted-Valid s x key remote_job socket v (admits g fa fr) = rw g (record {
      waiting = join-Waiting s.pending s.pending_count s.answers s.fresh v.waiting key;
      slots =
          Counted-append x.admission x.remote s.grid_bytes s.jobs s.plain_jobs remote_job _ refl fa
            fr (subst (Bytes.Invariant.Fits mb s.grid_bytes) (omega arith) v.slots.grids);
    })
    launch_admitted-Valid s x key remote_job socket v (refuses g a r) = rw g (record {
      waiting = v.waiting;
      slots = record {
        overall = rw a v.slots.overall;
        remote = rw r v.slots.remote;
        grids = v.slots.grids;
      };
    })

    pub job-Valid :
        (s : State R) (key : Key) (remote_job : Bool) (socket : Option ℕ)
        → V s
        → V (submit_job s key remote_job socket).0
    unfolding submit_job
    job-Valid s key remote_job socket v = elim (Bool-cases (contains_key key s.pending)) [
      | inl e ↦ rw e (existing-Valid s key socket v)
      | inr e ↦ rw e (elim (Bool-cases (has_room s)) [
        | inl f ↦ rw f (
            launch_admitted-Valid s (admit_job s.admission s.remote remote_job) key remote_job
              socket v
              (admit_job-Admits m mr s.admission s.remote _ _ v.slots.overall v.slots.remote
                remote_job))
        | inr f ↦ rw f v
      ])
    ]

    grid_launched-Valid :
        (s : State R) (b : Bytes.TerrainByteAdmission) (x : Admitted) (key : Key)
        (remote_job : Bool) (bytes : ℕ) (socket : Option ℕ)
        → V s
        → Bytes.Invariant.Fits mb b (sum_jobs (λ j. j.bytes) s.jobs + bytes)
        → Admits s.admission s.remote remote_job m mr
            (s.plain_jobs + sum_jobs (λ j. overall_slots j.phase) s.jobs)
            (sum_jobs (λ j. remote_slots j.phase) s.jobs)
            x
        → V (launch_grid s b x key remote_job bytes socket).0
    unfolding launch_grid launch join
    grid_launched-Valid s b x key remote_job bytes socket v fb (admits g fa fr) = rw g (record {
      waiting = join-Waiting s.pending s.pending_count s.answers s.fresh v.waiting key;
      slots = Counted-append x.admission x.remote b s.jobs s.plain_jobs remote_job _ refl fa fr fb;
    })
    grid_launched-Valid s b x key remote_job bytes socket v fb (refuses g a r) = rw g (record {
      waiting = v.waiting;
      slots = record {
        overall = rw a v.slots.overall;
        remote = rw r v.slots.remote;
        grids = Fits-release_bytes mb b _ _ bytes word refl fb;
      };
    })

    new_grid-Valid :
        (s : State R) (key : Key) (remote_job : Bool) (bytes : ℕ) (socket : Option ℕ)
        → V s
        → V (submit_new_grid s key remote_job bytes socket).0
    unfolding submit_new_grid
    new_grid-Valid s key remote_job bytes socket v =
        elim (Bool-cases (Bytes.try_acquire s.grid_bytes bytes).1) [
          | inl g ↦ rw g (
              grid_launched-Valid s (Bytes.try_acquire s.grid_bytes bytes).0
                (admit_job s.admission s.remote remote_job) key remote_job bytes socket v
                (rw g at (Fits-try_reserve mb s.grid_bytes _ bytes word v.slots.grids))
                (admit_job-Admits m mr s.admission s.remote _ _ v.slots.overall v.slots.remote
                  remote_job))
          | inr g ↦ rw g v
        ]

    started-Valid : (s : State R) (stopping : Bool) → V s → V (start_plain s stopping).0
    unfolding start_plain
    started-Valid s true v = v
    started-Valid s false v = elim (Bool-cases (Jobs.try_acquire s.admission).1) [
      | inl g ↦ rw g (record {
        waiting = v.waiting;
        slots = record {
          overall =
              subst (Fits m (Jobs.try_acquire s.admission).0) (omega arith)
                (rw g at (Fits-try_acquire m s.admission _ v.slots.overall));
          remote = v.slots.remote;
          grids = v.slots.grids;
        };
      })
      | inr g ↦ rw g (record {
        waiting = v.waiting;
        slots = record {
          overall = rw g at (Fits-try_acquire m s.admission _ v.slots.overall);
          remote = v.slots.remote;
          grids = v.slots.grids;
        };
      })
    ]

    pub plain-Valid : (s : State R) → V s → V (submit_terrain_job s).0
    unfolding submit_terrain_job
    plain-Valid s v = started-Valid s s.shutting_down v

    pub grid-Valid :
        (s : State R) (text : Text) (columns rows : ℕ) (remote_job : Bool) (socket : Option ℕ)
        → V s
        → V (submit_terrain_grid s text columns rows remote_job socket).0
    unfolding submit_terrain_grid
    grid-Valid s text columns rows remote_job socket v =
        let key : Key = record { registry = grids; text = text } in
        elim (Bool-cases (contains_key key s.pending)) [
          | inl e ↦ rw e (existing-Valid s key socket v)
          | inr e ↦ rw e (elim (Bool-cases (has_room s)) [
            | inl f ↦ rw f (new_grid-Valid s key remote_job (estimated_bytes columns rows) socket v)
            | inr f ↦ rw f v
          ])
        ]
