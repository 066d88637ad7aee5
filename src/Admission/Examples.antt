-- ===== src/Admission/Examples.antt =====
-- server/terrain_admission.h and server/terrain_byte_admission.h: runs on concrete schedules.
use aowis_server_map.Prelude.{ℕ, ◌≡◌, refl, true, false, arith, List, [], ◌∷◌, All}
use aowis_server_map.Prelude.Int.{pos, ◌+ℤ◌}
use aowis_server_map.Admission.Jobs
use aowis_server_map.Admission.Jobs.Linear.{Linearizes}
use aowis_server_map.Admission.Jobs.Invariant.{run-counts, run-Linearizes, Fits}
use aowis_server_map.Admission.Bytes
use aowis_server_map.Admission.Bytes.Linear
use aowis_server_map.Admission.Bytes.Invariant.{run-reserves, byte_run-Linearizes}

-- Two threads race for one job: both load, one exchange wins, and the other sees the maximum.
abbrev race : List (ℕ × Jobs.Action)
race = (0, Jobs.load) ∷ (1, Jobs.load) ∷ (1, Jobs.exchange false) ∷ (0, Jobs.exchange false) ∷ []

race_threads :
    (Jobs.run (record { admission = Jobs.init (pos 1); threads = Jobs.all_idle 2 }) race).threads
    ≡ Jobs.idle ∷ Jobs.holding ∷ []
unfolding Jobs.run Jobs.init Jobs.all_idle Jobs.advance Jobs.step Jobs.test_current
    Jobs.compare_exchange Jobs.same ◌+ℤ◌
race_threads = refl

run-counts_example :
    let s = Jobs.run (record { admission = Jobs.init (pos 1); threads = Jobs.all_idle 2 }) race in
    Fits (pos 1) s.admission (Jobs.holders s.threads)
run-counts_example = run-counts (pos 1) 2 race

-- One thread's value has become stale when the other's exchange is done.
run-Linearizes_example :
    let s =
      Jobs.run
        (record { admission = Jobs.init (pos 1); threads = Jobs.all_idle 2 })
        ((0, Jobs.load) ∷ (1, Jobs.load) ∷ (1, Jobs.exchange false) ∷ []) in
    All
      (λ t.
        Linearizes s.admission t
          (Jobs.step s.admission t (Jobs.exchange false))
          (Jobs.step s.admission t (Jobs.exchange false)).returned)
      s.threads
run-Linearizes_example =
    run-Linearizes (pos 1) 2 ((0, Jobs.load) ∷ (1, Jobs.load) ∷ (1, Jobs.exchange false) ∷ [])
      (Jobs.exchange false)

abbrev byte_race : List (ℕ × Bytes.Action)
byte_race =
    (0, Bytes.load 60)
    ∷ (1, Bytes.load 50)
    ∷ (1, Bytes.exchange true)
    ∷ (0, Bytes.exchange false)
    ∷ (1, Bytes.exchange false)
    ∷ []

byte_race_threads :
    (Bytes.run
      (record { admission = Bytes.init 100; threads = Bytes.all_idle 2 })
      byte_race).threads
    ≡ Bytes.holding 60 ∷ Bytes.idle ∷ []
unfolding Bytes.run Bytes.init Bytes.all_idle Bytes.advance Bytes.step Bytes.enter
    Bytes.test_current Bytes.compare_exchange
byte_race_threads = refl

run-reserves_example :
    let s =
      Bytes.run (record { admission = Bytes.init 100; threads = Bytes.all_idle 2 }) byte_race in
    aowis_server_map.Admission.Bytes.Invariant.Fits 100 s.admission (Bytes.held s.threads)
run-reserves_example = run-reserves 100 2 byte_race (omega arith)

byte_run-Linearizes_example :
    let s =
      Bytes.run
        (record { admission = Bytes.init 100; threads = Bytes.all_idle 2 })
        ((0, Bytes.load 60) ∷ (1, Bytes.load 50) ∷ (0, Bytes.exchange false) ∷ []) in
    All
      (λ t.
        aowis_server_map.Admission.Bytes.Linear.Linearizes s.admission t
          (Bytes.exchange false)
          (Bytes.step s.admission t (Bytes.exchange false))
          (Bytes.step s.admission t (Bytes.exchange false)).returned)
      s.threads
byte_run-Linearizes_example =
    byte_run-Linearizes 100 2
      ((0, Bytes.load 60) ∷ (1, Bytes.load 50) ∷ (0, Bytes.exchange false) ∷ [])
      (Bytes.exchange false) (omega arith)
