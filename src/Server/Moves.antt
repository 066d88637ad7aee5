-- ===== src/Server/Moves.antt =====
-- server/server.cpp: the ways in which the tokens and the jobs in flight move, and those of requests.
use aowis_server_map.Prelude.{
  ℕ, ◌+◌, ◌≤◌, ◌≡◌, refl, Bool, Option, [], ◌∷◌, ◌++◌, Text, arith, inl, inr, Bool-cases,
}
use aowis_server_map.Admission.Bytes
use aowis_server_map.Server.State.{grids, Key, Phase, Job, State, contains_key, remove_key}
use aowis_server_map.Server.Submit.{
  Admitted, admit_job, has_room, join, launch, launch_admitted, submit_existing, submit_job,
  estimated_bytes, launch_grid, submit_new_grid, submit_terrain_grid,
}
use aowis_server_map.Server.Work.{change, delete}

module _ {R : Type 0} where
  -- From one state to a later one: both lists stay, a job goes to another stage or ends, a key loses
  -- its token, or a job is launched with the number that is given next.
  pub data Moves : State R → State R → Type 0 where
    stays :
        (s s' : State R) → s'.tokens ≡ s.tokens → s'.jobs ≡ s.jobs → s.fresh ≤ s'.fresh → Moves s s'
    goes_on :
        (s s' : State R) (n : ℕ) (phase : Phase R)
        → s'.tokens ≡ s.tokens
        → s'.jobs ≡ change n phase s.jobs
        → s'.fresh ≡ s.fresh
        → Moves s s'
    ends :
        (s s' : State R) (n : ℕ)
        → s'.tokens ≡ s.tokens
        → s'.jobs ≡ delete n s.jobs
        → s'.fresh ≡ s.fresh
        → Moves s s'
    forgets :
        (s s' : State R) (key : Key)
        → s'.tokens ≡ remove_key key s.tokens
        → s'.jobs ≡ s.jobs
        → s'.fresh ≡ s.fresh
        → Moves s s'
    launches :
        (s s' : State R) (j : Job R)
        → j.token ≡ s.fresh
        → s'.tokens ≡ (j.key, s.fresh) ∷ remove_key j.key s.tokens
        → s'.jobs ≡ s.jobs ++ (j ∷ [])
        → s'.fresh ≡ s.fresh + 1
        → Moves s s'
    both : (s m s' : State R) → Moves s m → Moves m s' → Moves s s'

  pub still : (s : State R) → Moves s s
  still s = stays s s refl refl (omega arith)

  -- The counters do not matter here.
  pub recounted :
      (s s' : State R) → s'.tokens ≡ s.tokens → s'.jobs ≡ s.jobs → s'.fresh ≡ s.fresh → Moves s s'
  recounted s s' t j f = stays s s' t j (omega (arith, f))

  join-Moves : (s : State R) (key : Key) (socket : Option ℕ) → Moves s (join s key socket)
  unfolding join
  join-Moves s key socket = stays s _ refl refl (omega arith)

  launch-Moves :
      (s s' : State R) (key : Key) (remote_job : Bool) (bytes : ℕ) (socket : Option ℕ)
      → s'.tokens ≡ s.tokens
      → s'.jobs ≡ s.jobs
      → s'.fresh ≡ s.fresh
      → Moves s (launch s' key remote_job bytes socket)
  unfolding launch join
  launch-Moves s s' key remote_job bytes socket t j f =
      both s s' _ (recounted s s' t j f) (launches s' _ _ refl refl refl refl)

  existing-Moves :
      (s : State R) (key : Key) (socket : Option ℕ) → Moves s (submit_existing s key socket).0
  unfolding submit_existing
  existing-Moves s key socket = elim (Bool-cases (has_room s)) [
    | inl e ↦ rw e (join-Moves s key socket)
    | inr e ↦ rw e (still s)
  ]

  admitted-Moves :
      (s : State R) (x : Admitted) (key : Key) (remote_job : Bool) (socket : Option ℕ)
      → Moves s (launch_admitted s x key remote_job 0 socket).0
  unfolding launch_admitted
  admitted-Moves s x key remote_job socket = elim (Bool-cases x.granted) [
    | inl e ↦ rw e (launch-Moves s _ key remote_job 0 socket refl refl refl)
    | inr e ↦ rw e (recounted s _ refl refl refl)
  ]

  pub job-Moves :
      (s : State R) (key : Key) (remote_job : Bool) (socket : Option ℕ)
      → Moves s (submit_job s key remote_job socket).0
  unfolding submit_job
  job-Moves s key remote_job socket = elim (Bool-cases (contains_key key s.pending)) [
    | inl e ↦ rw e (existing-Moves s key socket)
    | inr e ↦ rw e (elim (Bool-cases (has_room s)) [
      | inl f ↦
          rw f (admitted-Moves s (admit_job s.admission s.remote remote_job) key remote_job socket)
      | inr f ↦ rw f (still s)
    ])
  ]

  grid_launched-Moves :
      (s : State R) (b : Bytes.TerrainByteAdmission) (x : Admitted) (key : Key) (remote_job : Bool)
      (bytes : ℕ) (socket : Option ℕ)
      → Moves s (launch_grid s b x key remote_job bytes socket).0
  unfolding launch_grid
  grid_launched-Moves s b x key remote_job bytes socket = elim (Bool-cases x.granted) [
    | inl e ↦ rw e (launch-Moves s _ key remote_job bytes socket refl refl refl)
    | inr e ↦ rw e (recounted s _ refl refl refl)
  ]

  pub grid-Moves :
      (s : State R) (text : Text) (columns rows : ℕ) (remote_job : Bool) (socket : Option ℕ)
      → Moves s (submit_terrain_grid s text columns rows remote_job socket).0
  unfolding submit_terrain_grid submit_new_grid
  grid-Moves s text columns rows remote_job socket =
      let key : Key = record { registry = grids; text = text } in
      let bytes : ℕ = estimated_bytes columns rows in
      elim (Bool-cases (contains_key key s.pending)) [
        | inl e ↦ rw e (existing-Moves s key socket)
        | inr e ↦ rw e (elim (Bool-cases (has_room s)) [
          | inr f ↦ rw f (still s)
          | inl f ↦ rw f (elim (Bool-cases (Bytes.try_acquire s.grid_bytes bytes).1) [
            | inl g ↦ rw g (
                grid_launched-Moves s (Bytes.try_acquire s.grid_bytes bytes).0
                  (admit_job s.admission s.remote remote_job) key remote_job bytes socket)
            | inr g ↦ rw g (still s)
          ])
        ])
      ]
