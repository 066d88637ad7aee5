-- ===== src/Server/Refused.antt =====
-- server/server.cpp: a refused request, and the destructor.
use aowis_server_map.Prelude.{
  ℕ, ◌+◌, ◌^◌, ◌<◌, ◌≡◌, refl, Bool, Option, List, Text, arith, Bool-cases, inl, inr,
}
use aowis_server_map.Prelude.Int.{ℤ}
use aowis_server_map.Admission.Bytes
use aowis_server_map.Server.State.{tiles, elevations, grids, Key, State, init, contains_key}
use aowis_server_map.Server.Submit.{
  Submitted, busy, waiting, Admitted, admit_job, has_room, launch_admitted, submit_existing,
  submit_job, submit_terrain_tile, submit_terrain_elevation, estimated_bytes, launch_grid,
  submit_new_grid, submit_terrain_grid,
}
use aowis_server_map.Server.Work.{Event, destroy, run, finish_pending}
use aowis_server_map.Server.Admits.{Admits, admits, refuses, admit_job-Admits}
use aowis_server_map.Server.Invariant.{Valid}
use aowis_server_map.Server.Waiting.{is, issued}
use aowis_server_map.Server.Sums.{sum_answers, sum_answers-append, sum_answers-finish_pending}
use aowis_server_map.Server.Slots.{overall_slots, remote_slots, sum_jobs, release-try_reserve}
use aowis_server_map.Server.Runs.{run-Valid}

-- What a refusal means: nothing has changed.
abbrev pub Unchanged : {R : Type 0} → State R → State R × Submitted → Type 0
Unchanged s (s', waiting p) = Unit {0}
Unchanged s (s', busy) = s' ≡ s

module _ {R : Type 0} (m mr : ℤ) (mb : ℕ) (word : mb < 2 ^ 64) where
  abbrev Granted : State R → Admitted → Bool → Type 0
  Granted s x remote_job =
      Admits s.admission s.remote remote_job m mr
        (s.plain_jobs + sum_jobs (λ j. overall_slots j.phase) s.jobs)
        (sum_jobs (λ j. remote_slots j.phase) s.jobs) x

  existing-Unchanged :
      (s : State R) (key : Key) (socket : Option ℕ) → Unchanged s (submit_existing s key socket)
  unfolding submit_existing
  existing-Unchanged s key socket = elim (Bool-cases (has_room s)) [
    | inl e ↦ rw e tt
    | inr e ↦ rw e refl
  ]

  launch_admitted-Unchanged :
      (s : State R) (x : Admitted) (key : Key) (remote_job : Bool) (socket : Option ℕ)
      → Granted s x remote_job
      → Unchanged s (launch_admitted s x key remote_job 0 socket)
  unfolding launch_admitted
  launch_admitted-Unchanged s x key remote_job socket (admits g fa fr) = rw g tt
  launch_admitted-Unchanged s x key remote_job socket (refuses g a r) = rw (g, a, r) refl

  job-Unchanged :
      (s : State R) (key : Key) (remote_job : Bool) (socket : Option ℕ)
      → Valid m mr mb s
      → Unchanged s (submit_job s key remote_job socket)
  unfolding submit_job
  job-Unchanged s key remote_job socket v = elim (Bool-cases (contains_key key s.pending)) [
    | inl e ↦ rw e (existing-Unchanged s key socket)
    | inr e ↦ rw e (elim (Bool-cases (has_room s)) [
      | inl f ↦ rw f (
          launch_admitted-Unchanged s (admit_job s.admission s.remote remote_job) key remote_job
            socket
            (admit_job-Admits m mr s.admission s.remote _ _ v.slots.overall v.slots.remote
              remote_job))
      | inr f ↦ rw f refl
    ])
  ]

  grid_launched-Unchanged :
      (s : State R) (b : Bytes.TerrainByteAdmission) (x : Admitted) (key : Key) (remote_job : Bool)
      (bytes : ℕ) (socket : Option ℕ)
      → Bytes.release b bytes ≡ s.grid_bytes
      → Granted s x remote_job
      → Unchanged s (launch_grid s b x key remote_job bytes socket)
  unfolding launch_grid
  grid_launched-Unchanged s b x key remote_job bytes socket back (admits g fa fr) = rw g tt
  grid_launched-Unchanged s b x key remote_job bytes socket back (refuses g a r) =
      rw (g, a, r, back) refl

  new_grid-Unchanged :
      (s : State R) (key : Key) (remote_job : Bool) (bytes : ℕ) (socket : Option ℕ)
      → Valid m mr mb s
      → Unchanged s (submit_new_grid s key remote_job bytes socket)
  unfolding submit_new_grid
  new_grid-Unchanged s key remote_job bytes socket v =
      elim (Bool-cases (Bytes.try_acquire s.grid_bytes bytes).1) [
        | inl g ↦ rw g (
            grid_launched-Unchanged s (Bytes.try_acquire s.grid_bytes bytes).0
              (admit_job s.admission s.remote remote_job) key remote_job bytes socket
              (release-try_reserve mb s.grid_bytes _ bytes word v.slots.grids g)
              (admit_job-Admits m mr s.admission s.remote _ _ v.slots.overall v.slots.remote
                remote_job))
        | inr g ↦ rw g refl
      ]

  grid-Unchanged :
      (s : State R) (text : Text) (columns rows : ℕ) (remote_job : Bool) (socket : Option ℕ)
      → Valid m mr mb s
      → Unchanged s (submit_terrain_grid s text columns rows remote_job socket)
  unfolding submit_terrain_grid
  grid-Unchanged s text columns rows remote_job socket v =
      let key : Key = record { registry = grids; text = text } in
      elim (Bool-cases (contains_key key s.pending)) [
        | inl e ↦ rw e (existing-Unchanged s key socket)
        | inr e ↦ rw e (elim (Bool-cases (has_room s)) [
          | inl f ↦
              rw f (new_grid-Unchanged s key remote_job (estimated_bytes columns rows) socket v)
          | inr f ↦ rw f refl
        ])
      ]

  -- In a state where the counters are those of the jobs, a request that is refused as busy leaves
  -- the whole state as it was, whatever counters it had taken on the way: for a tile, an elevation
  -- and a grid.
  pub submit-busy :
      (s : State R) (text : Text) (columns rows : ℕ) (remote_job : Bool) (socket : Option ℕ)
      → Valid m mr mb s
      → Unchanged s (submit_terrain_tile s text remote_job socket)
        × Unchanged s (submit_terrain_elevation s text remote_job socket)
        × Unchanged s (submit_terrain_grid s text columns rows remote_job socket)
  unfolding submit_terrain_tile submit_terrain_elevation
  submit-busy s text columns rows remote_job socket v = (
    job-Unchanged s (record { registry = tiles; text = text }) remote_job socket v,
    job-Unchanged s (record { registry = elevations; text = text }) remote_job socket v,
    grid-Unchanged s text columns rows remote_job socket v,
  )

  -- After any sequence of events from the start and the destructor, every promise that was made has
  -- been answered exactly once, and nothing else has been answered, if the maximum of bytes fits 64
  -- bits.
  pub destroy-answers :
      (maximum_pending : ℤ) (events : List (Event R)) (q : ℕ)
      → let s = run (init maximum_pending m mr mb) events in
        sum_answers (is q) (destroy s).answers ≡ issued q s.fresh
  unfolding destroy
  destroy-answers maximum_pending events q =
      let s : State R = run (init maximum_pending m mr mb) events in
      let v : Valid m mr mb s = run-Valid m mr mb word maximum_pending events in
      omega (
        arith,
        sum_answers-append (is q) s.answers (finish_pending s.pending),
        sum_answers-finish_pending (is q) R s.pending,
        v.waiting.answered q,
      )
