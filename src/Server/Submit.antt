-- ===== src/Server/Submit.antt =====
-- server/server.cpp: `submitTerrainTile`, `submitTerrainElevation` and `submitTerrainGrid`, up to the
-- start of the job. The key's text and the answer of `...NeedsRemoteAcquisition` are given.
use aowis_server_map.Prelude.{
  ℕ, ◌+◌, ◌*◌, ◌%◌, ◌^◌, Bool, true, false, not, ◌&&◌, Option, [], ◌∷◌, ◌++◌, Text, if◌then◌else◌,
}
use aowis_server_map.Prelude.Int.{pos, ltb_ℤ, ◌+ℤ◌}
use aowis_server_map.Admission.Jobs
use aowis_server_map.Admission.Bytes
use aowis_server_map.Server.State.{
  tiles, elevations, grids, Key, acquiring, processing, State, contains_key, remove_key,
  append_waiter, attach_waiter,
}

pub data Submitted : Type 0 where
  busy : Submitted
  waiting : ℕ → Submitted

-- The counters after the attempt, and whether it was admitted.
pub record Admitted : Type 0 where
  pub admission : Jobs.TerrainAdmission
  pub remote : Jobs.TerrainAdmission
  pub granted : Bool

-- The overall counter, once the remote one is passed; a refusal gives the remote slot back.
unfoldable pub admit_overall : Jobs.TerrainAdmission → Jobs.TerrainAdmission → Bool → Admitted
unfolding Jobs.try_acquire Jobs.release
admit_overall admission remote remote_job =
    let (admission', granted) = Jobs.try_acquire admission in
    if granted
    then record { admission = admission'; remote = remote; granted = true }
    else if remote_job
    then record { admission = admission'; remote = Jobs.release remote; granted = false }
    else record { admission = admission'; remote = remote; granted = false }

unfoldable pub admit_job : Jobs.TerrainAdmission → Jobs.TerrainAdmission → Bool → Admitted
unfolding Jobs.try_acquire admit_overall
admit_job admission remote false = admit_overall admission remote false
admit_job admission remote true =
    let (remote', granted) = Jobs.try_acquire remote in
    if granted
    then admit_overall admission remote' true
    else record { admission = admission; remote = remote'; granted = false }

abbrev pub estimated_bytes : ℕ → ℕ → ℕ
estimated_bytes columns rows = (columns * rows * 8) % 2 ^ 64

module _ {R : Type 0} where
  abbrev pub has_room : State R → Bool
  has_room s = not s.shutting_down && ltb_ℤ s.pending_count s.maximum_pending_requests

  -- `submitTerrainJob`; the second argument is `shutting_down`.
  unfoldable pub start_plain : State R → Bool → State R × Bool
  unfolding Jobs.try_acquire
  start_plain s true = (s, false)
  start_plain s false =
      let (admission, granted) = Jobs.try_acquire s.admission in
      if granted
      then (record s { admission = admission; plain_jobs = s.plain_jobs + 1 }, true)
      else (record s { admission = admission }, false)

  unfoldable pub submit_terrain_job : State R → State R × Bool
  unfolding start_plain
  submit_terrain_job s = start_plain s s.shutting_down

  -- The promise joins the waiters of the key.
  unfoldable pub join : State R → Key → Option ℕ → State R
  unfolding append_waiter attach_waiter ◌+ℤ◌
  join s key socket = record s {
    pending = append_waiter key s.fresh s.pending;
    sockets = attach_waiter s.fresh socket s.sockets;
    pending_count = s.pending_count +ℤ pos 1;
    fresh = s.fresh + 1;
  }

  -- The first promise of a key also has a token and a job.
  unfoldable pub launch : State R → Key → Bool → ℕ → Option ℕ → State R
  unfolding join remove_key
  launch s key remote_job bytes socket = record (join s key socket) {
    tokens = (key, s.fresh) ∷ remove_key key s.tokens;
    jobs =
        s.jobs
        ++ (record {
          key = key;
          token = s.fresh;
          bytes = bytes;
          phase = if remote_job then acquiring else processing;
        }
            ∷ []);
  }

  -- A request with the counters after its admission.
  unfoldable pub launch_admitted :
      State R → Admitted → Key → Bool → ℕ → Option ℕ → State R × Submitted
  unfolding launch
  launch_admitted s a key remote_job bytes socket =
      let s' = record s { admission = a.admission; remote = a.remote } in
      if a.granted then (launch s' key remote_job bytes socket, waiting s.fresh) else (s', busy)

  -- A request whose key has waiters joins them, if there is room.
  unfoldable pub submit_existing : State R → Key → Option ℕ → State R × Submitted
  unfolding join
  submit_existing s key socket =
      if has_room s then (join s key socket, waiting s.fresh) else (s, busy)

  -- A tile or an elevation.
  unfoldable pub submit_job : State R → Key → Bool → Option ℕ → State R × Submitted
  unfolding contains_key submit_existing admit_job launch_admitted
  submit_job s key remote_job socket =
      if contains_key key s.pending
      then submit_existing s key socket
      else if has_room s
      then launch_admitted s (admit_job s.admission s.remote remote_job) key remote_job 0 socket
      else (s, busy)

  unfoldable pub submit_terrain_tile : State R → Text → Bool → Option ℕ → State R × Submitted
  submit_terrain_tile s text remote_job socket =
      submit_job s (record { registry = tiles; text = text }) remote_job socket

  unfoldable pub submit_terrain_elevation : State R → Text → Bool → Option ℕ → State R × Submitted
  submit_terrain_elevation s text remote_job socket =
      submit_job s (record { registry = elevations; text = text }) remote_job socket

  -- The bytes of a grid are reserved first, and given back if the job is refused.
  unfoldable pub launch_grid :
      State R
      → Bytes.TerrainByteAdmission
      → Admitted
      → Key
      → Bool
      → ℕ
      → Option ℕ
      → State R × Submitted
  unfolding Bytes.release launch
  launch_grid s grid_bytes a key remote_job bytes socket =
      if a.granted
      then (
        launch (record s { grid_bytes = grid_bytes; admission = a.admission; remote = a.remote })
            key remote_job bytes socket,
        waiting s.fresh,
      )
      else (
        record s {
          grid_bytes = Bytes.release grid_bytes bytes;
          admission = a.admission;
          remote = a.remote;
        },
        busy,
      )

  unfoldable pub submit_new_grid : State R → Key → Bool → ℕ → Option ℕ → State R × Submitted
  unfolding Bytes.try_acquire admit_job launch_grid
  submit_new_grid s key remote_job bytes socket =
      let (grid_bytes, granted) = Bytes.try_acquire s.grid_bytes bytes in
      if granted
      then launch_grid s grid_bytes (admit_job s.admission s.remote remote_job) key remote_job bytes
          socket
      else (s, busy)

  unfoldable pub submit_terrain_grid :
      State R → Text → ℕ → ℕ → Bool → Option ℕ → State R × Submitted
  unfolding contains_key submit_existing submit_new_grid
  submit_terrain_grid s text columns rows remote_job socket =
      let key : Key = record { registry = grids; text = text } in
      if contains_key key s.pending
      then submit_existing s key socket
      else if has_room s
      then submit_new_grid s key remote_job (estimated_bytes columns rows) socket
      else (s, busy)
