-- ===== src/Admission/Jobs.antt =====
-- server/terrain_admission.h: `TerrainAdmission`, and its callers as threads.
pub mod Linear
pub mod Invariant
use aowis_server_map.Prelude.{
  ℕ, zero, suc, ◌+◌, ◌≡◌, refl, sym, subst, Bool, true, false, Option, none, some, List, [], ◌∷◌,
  replicate, arith, if◌then◌else◌, ◌⊎◌, inl, inr, Bool-cases, ◌≤◌,
}
use aowis_server_map.Prelude.Int.{ℤ, pos, negsuc, ◌+ℤ◌, ◌-ℤ◌, ltb_ℤ, ◌≤ℤ◌, pos_part, neg_part}

pub record TerrainAdmission : Type 0 where
  pub maximum_jobs : ℤ
  pub outstanding : ℤ

unfoldable pub init : ℤ → TerrainAdmission
init maximum_jobs = record { maximum_jobs = maximum_jobs; outstanding = pos 0 }

-- The call as the contract reads: it happens at one moment.
unfoldable pub try_acquire : TerrainAdmission → TerrainAdmission × Bool
try_acquire a =
    if ltb_ℤ a.outstanding a.maximum_jobs
    then (record a { outstanding = a.outstanding +ℤ pos 1 }, true)
    else (a, false)

unfoldable pub release : TerrainAdmission → TerrainAdmission
release a = record a { outstanding = a.outstanding -ℤ pos 1 }

pub count : TerrainAdmission → ℤ
count a = a.outstanding

-- A thread outside the call, in its loop with the value that it has read, or with a job admitted.
pub data Thread : Type 0 where
  idle : Thread
  trying : ℤ → Thread
  holding : Thread

-- The weak exchange may fail without cause: `exchange true`.
pub data Action : Type 0 where
  load : Action
  exchange : Bool → Action
  leave : Action

-- What a step leaves: the counter, the thread, and the value that the call returned, if it did.
pub record Outcome : Type 0 where
  pub admission : TerrainAdmission
  pub thread : Thread
  pub returned : Option Bool

-- The loop's test on the value just read.
unfoldable pub test_current : TerrainAdmission → ℤ → Outcome
test_current a current =
    if ltb_ℤ current a.maximum_jobs
    then record { admission = a; thread = trying current; returned = none }
    else record { admission = a; thread = idle; returned = some false }

unfoldable pub same : ℤ → ℤ → Bool
same a b = if ltb_ℤ a b then false else if ltb_ℤ b a then false else true

-- `compare_exchange_weak`: on failure it loads the value that it found.
unfoldable pub compare_exchange : TerrainAdmission → ℤ → Bool → Outcome
unfolding test_current same
compare_exchange a current spurious =
    if spurious
    then test_current a a.outstanding
    else if same a.outstanding current
    then record {
      admission = record a { outstanding = current +ℤ pos 1 };
      thread = holding;
      returned = some true;
    }
    else test_current a a.outstanding

unfoldable pub step : TerrainAdmission → Thread → Action → Outcome
unfolding test_current compare_exchange release
step a idle load = test_current a a.outstanding
step a (trying current) (exchange spurious) = compare_exchange a current spurious
step a holding leave = record { admission = release a; thread = idle; returned = none }
step a t _ = record { admission = a; thread = t; returned = none }

-- A thread in its loop holds a value below the maximum.
abbrev pub CanProceed : ℤ → Thread → Type 0
CanProceed maximum idle = Unit
CanProceed maximum (trying current) = pos 1 +ℤ current ≤ℤ maximum
CanProceed maximum holding = Unit

-- The counter with the threads that call it.
pub record System : Type 0 where
  pub admission : TerrainAdmission
  pub threads : List Thread

-- The thread of the given number takes a step.
unfoldable pub advance :
    TerrainAdmission → List Thread → ℕ → Action → TerrainAdmission × List Thread
advance a [] n action = (a, [])
advance a (t ∷ ts) zero action = let o = step a t action in (o.admission, o.thread ∷ ts)
advance a (t ∷ ts) (suc n) action = let (b, us) = advance a ts n action in (b, t ∷ us)

unfoldable pub run : System → List (ℕ × Action) → System
unfolding advance
run s [] = s
run s ((n, action) ∷ rest) =
    let (a, ts) = advance s.admission s.threads n action in
    run (record { admission = a; threads = ts }) rest

unfoldable pub all_idle : ℕ → List Thread
all_idle n = replicate n idle

abbrev pub weight : Thread → ℕ
weight idle = 0
weight (trying current) = 0
weight holding = 1

-- How many threads hold an admitted job.
abbrev pub holders : List Thread → ℕ
holders [] = 0
holders (t ∷ ts) = weight t + holders ts
