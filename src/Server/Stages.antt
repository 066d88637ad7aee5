-- ===== src/Server/Stages.antt =====
-- server/server.cpp: the pending requests and the counters after a stage of a job.
use aowis_server_map.Prelude.{
  ℕ, ◌+◌, ◌^◌, ◌<◌, ◌≡◌, sym, ap, subst, Bool, not, ◌&&◌, some, List, if◌then◌else◌, ◌==◌, inl, inr,
  arith, Bool-cases,
}
use aowis_server_map.Prelude.Int.{ℤ}
use aowis_server_map.Admission.Bytes
use aowis_server_map.Admission.Jobs.Invariant.{Fits}
use aowis_server_map.Admission.Bytes.Invariant
use aowis_server_map.Server.State.{
  Key, Phase, acquiring, processing, delivering, Job, outcome, State, value_of,
}
use aowis_server_map.Server.Waiters.{holds, is_current}
use aowis_server_map.Server.Work.{
  nth, change, delete, end_acquisition, end_processing, drain, deliver,
}
use aowis_server_map.Server.Waiting.{drain-Waiting}
use aowis_server_map.Server.Invariant.{Valid}
use aowis_server_map.Server.Slots.{
  overall_slots, remote_slots, sum_jobs, sum_jobs-change, sum_jobs-delete, Fits-release,
  Fits-release_bytes,
}

module _ {R : Type 0} (m mr : ℤ) (mb : ℕ) (word : mb < 2 ^ 64) where
  abbrev W : State R → Type 0
  W = Valid m mr mb

  -- The slots of the jobs, if one goes to another stage.
  moved :
      (w : Phase R → ℕ) (n : ℕ) (old new : Phase R) (jobs : List (Job R)) (j : Job R)
      → nth n jobs ≡ some j
      → j.phase ≡ old
      → sum_jobs (λ j. w j.phase) (change n new jobs) + w old
        ≡ sum_jobs (λ j. w j.phase) jobs + w new
  moved w n old new jobs j at stage =
      subst
        (λ p.
          sum_jobs (λ j. w j.phase) (change n new jobs) + w p
          ≡ sum_jobs (λ j. w j.phase) jobs + w new)
        stage (sum_jobs-change (λ j. w j.phase) n new jobs j at)

  same_bytes :
      (n : ℕ) (new : Phase R) (jobs : List (Job R)) (j : Job R) (b : Bytes.TerrainByteAdmission)
      → nth n jobs ≡ some j
      → Bytes.Invariant.Fits mb b (sum_jobs (λ j. j.bytes) jobs)
      → Bytes.Invariant.Fits mb b (sum_jobs (λ j. j.bytes) (change n new jobs))
  same_bytes n new jobs j b at h =
      subst (Bytes.Invariant.Fits mb b)
        (omega (arith, sum_jobs-change (λ j. j.bytes) n new jobs j at)) h

  -- A job that goes to another stage gives the slots back that it no longer needs.
  pub acquisition-Valid :
      (s : State R) (n : ℕ) (j : Job R) (ready : Bool) (failure : R)
      → nth n s.jobs ≡ some j
      → j.phase ≡ acquiring
      → W s
      → W (end_acquisition s n j ready failure)
  unfolding end_acquisition
  acquisition-Valid s n j ready failure at stage v =
      elim (Bool-cases (ready && not (holds j.token s.cancelled))) [
        | inl e ↦ rw e (record {
          waiting = v.waiting;
          slots = record {
            overall =
                subst (Fits m s.admission)
                  (omega (arith, moved overall_slots n acquiring processing s.jobs j at stage))
                  v.slots.overall;
            remote =
                Fits-release mr s.remote _ _
                  (omega (arith, moved remote_slots n acquiring processing s.jobs j at stage))
                  v.slots.remote;
            grids = same_bytes n processing s.jobs j s.grid_bytes at v.slots.grids;
          };
        })
        | inr e ↦ rw e (record {
          waiting = v.waiting;
          slots = record {
            overall =
                Fits-release m s.admission _ _
                  (omega
                    (arith, moved overall_slots n acquiring (delivering failure) s.jobs j at stage))
                  v.slots.overall;
            remote =
                Fits-release mr s.remote _ _
                  (omega
                    (arith, moved remote_slots n acquiring (delivering failure) s.jobs j at stage))
                  v.slots.remote;
            grids = same_bytes n (delivering failure) s.jobs j s.grid_bytes at v.slots.grids;
          };
        })
      ]

  pub processing-Valid :
      (s : State R) (n : ℕ) (j : Job R) (result : R)
      → nth n s.jobs ≡ some j
      → j.phase ≡ processing
      → W s
      → W (end_processing s n result)
  unfolding end_processing
  processing-Valid s n j result at stage v = record {
    waiting = v.waiting;
    slots = record {
      overall =
          Fits-release m s.admission _ _
            (omega (arith, moved overall_slots n processing (delivering result) s.jobs j at stage))
            v.slots.overall;
      remote =
          subst (Fits mr s.remote)
            (omega (arith, moved remote_slots n processing (delivering result) s.jobs j at stage))
            v.slots.remote;
      grids = same_bytes n (delivering result) s.jobs j s.grid_bytes at v.slots.grids;
    };
  }

  drain-Valid : (s : State R) (key : Key) (result : R) → W s → W (drain s key result)
  unfolding drain
  drain-Valid s key result v = record {
    waiting =
        drain-Waiting s.pending s.pending_count s.answers s.fresh v.waiting key (outcome result);
    slots = v.slots;
  }

  -- The callback's job is gone, and a grid's bytes with it.
  deleted-Valid :
      (s : State R) (n : ℕ) (j : Job R) (r : R)
      → nth n s.jobs ≡ some j
      → j.phase ≡ delivering r
      → W s
      → W (record s {
        grid_bytes = if j.bytes == 0 then s.grid_bytes else Bytes.release s.grid_bytes j.bytes;
        jobs = delete n s.jobs;
      })
  deleted-Valid s n j r at stage v = record {
    waiting = v.waiting;
    slots = record {
      overall =
          subst (Fits m s.admission)
            (omega (
              arith,
              sum_jobs-delete (λ j. overall_slots j.phase) n s.jobs j at,
              ap overall_slots stage,
            ))
            v.slots.overall;
      remote =
          subst (Fits mr s.remote)
            (omega (
              arith,
              sum_jobs-delete (λ j. remote_slots j.phase) n s.jobs j at,
              ap remote_slots stage,
            ))
            v.slots.remote;
      grids = elim (Bool-cases (j.bytes == 0)) [
        | inl e ↦ rw e (
            subst (Bytes.Invariant.Fits mb s.grid_bytes)
              (ground (arith, sum_jobs-delete (λ j. j.bytes) n s.jobs j at, e)) v.slots.grids)
        | inr e ↦ rw e (
            Fits-release_bytes mb s.grid_bytes _ _ j.bytes word
              (sym (sum_jobs-delete (λ j. j.bytes) n s.jobs j at)) v.slots.grids)
      ];
    };
  }

  pub deliver-Valid :
      (s : State R) (n : ℕ) (j : Job R) (r : R)
      → nth n s.jobs ≡ some j
      → j.phase ≡ delivering r
      → W s
      → W (deliver s n j r)
  unfolding deliver
  deliver-Valid s n j r at stage v =
      let w = deleted-Valid s n j r at stage v in
      elim (Bool-cases (is_current j.token (value_of j.key s.tokens))) [
        | inl e ↦ rw e (drain-Valid _ j.key r w)
        | inr e ↦ rw e w
      ]
