-- ===== src/Admission/Bytes.antt =====
-- server/terrain_byte_admission.h: `TerrainByteAdmission`, and its callers as threads.
pub mod Linear
pub mod Invariant
use aowis_server_map.Prelude.{
  ℕ, zero, suc, ◌+◌, ◌-◌, ◌%◌, ◌^◌, ◌<◌, ◌≤◌, Bool, true, false, Option, none, some, List, [], ◌∷◌,
  replicate, if◌then◌else◌, ltb, leb, ◌==◌,
}

pub record TerrainByteAdmission : Type 0 where
  pub maximum_bytes : ℕ
  pub reserved : ℕ

unfoldable pub init : ℕ → TerrainByteAdmission
init maximum_bytes = record { maximum_bytes = maximum_bytes; reserved = 0 }

-- The call as the contract reads: it happens at one moment.
unfoldable pub try_acquire : TerrainByteAdmission → ℕ → TerrainByteAdmission × Bool
try_acquire a bytes =
    if ltb a.maximum_bytes bytes
    then (a, false)
    else if leb a.reserved (a.maximum_bytes - bytes)
    then (record a { reserved = (a.reserved + bytes) % 2 ^ 64 }, true)
    else (a, false)

-- `fetch_sub` on an unsigned word wraps.
unfoldable pub release : TerrainByteAdmission → ℕ → TerrainByteAdmission
release a bytes = record a { reserved = (a.reserved + 2 ^ 64 - bytes) % 2 ^ 64 }

pub count : TerrainByteAdmission → ℕ
count a = a.reserved

-- Outside the call, in its loop for an amount and with the value that it has read, or with an
-- amount reserved.
pub data Thread : Type 0 where
  idle : Thread
  trying : ℕ → ℕ → Thread
  holding : ℕ → Thread

-- `load bytes` starts a call; the weak exchange may fail without cause, `exchange true`.
pub data Action : Type 0 where
  load : ℕ → Action
  exchange : Bool → Action
  leave : Action

pub record Outcome : Type 0 where
  pub admission : TerrainByteAdmission
  pub thread : Thread
  pub returned : Option Bool

-- The loop's test on the value just read.
unfoldable pub test_current : TerrainByteAdmission → ℕ → ℕ → Outcome
test_current a bytes current =
    if leb current (a.maximum_bytes - bytes)
    then record { admission = a; thread = trying bytes current; returned = none }
    else record { admission = a; thread = idle; returned = some false }

-- The guard, and the first load.
unfoldable pub enter : TerrainByteAdmission → ℕ → Outcome
unfolding test_current
enter a bytes =
    if ltb a.maximum_bytes bytes
    then record { admission = a; thread = idle; returned = some false }
    else test_current a bytes a.reserved

-- `compare_exchange_weak`: on failure it loads the value that it found.
unfoldable pub compare_exchange : TerrainByteAdmission → ℕ → ℕ → Bool → Outcome
unfolding test_current
compare_exchange a bytes current spurious =
    if spurious
    then test_current a bytes a.reserved
    else if a.reserved == current
    then record {
      admission = record a { reserved = (current + bytes) % 2 ^ 64 };
      thread = holding bytes;
      returned = some true;
    }
    else test_current a bytes a.reserved

unfoldable pub step : TerrainByteAdmission → Thread → Action → Outcome
unfolding enter compare_exchange release
step a idle (load bytes) = enter a bytes
step a (trying bytes current) (exchange spurious) = compare_exchange a bytes current spurious
step a (holding bytes) leave = record {
  admission = release a bytes;
  thread = idle;
  returned = none;
}
step a t _ = record { admission = a; thread = t; returned = none }

-- A thread in its loop has passed the guard and holds a value that leaves room.
abbrev pub CanProceed : ℕ → Thread → Type 0
CanProceed maximum idle = Unit
CanProceed maximum (trying bytes current) = (bytes ≤ maximum) × (current ≤ maximum - bytes)
CanProceed maximum (holding bytes) = Unit

pub record System : Type 0 where
  pub admission : TerrainByteAdmission
  pub threads : List Thread

unfoldable pub advance :
    TerrainByteAdmission → List Thread → ℕ → Action → TerrainByteAdmission × List Thread
advance a [] n action = (a, [])
advance a (t ∷ ts) zero action = let o = step a t action in (o.admission, o.thread ∷ ts)
advance a (t ∷ ts) (suc n) action = let (b, us) = advance a ts n action in (b, t ∷ us)

unfoldable pub run : System → List (ℕ × Action) → System
unfolding advance
run s [] = s
run s ((n, action) ∷ rest) =
    let (a, ts) = advance s.admission s.threads n action in
    run (record { admission = a; threads = ts }) rest

unfoldable pub all_idle : ℕ → List Thread
all_idle n = replicate n idle

abbrev pub weight : Thread → ℕ
weight idle = 0
weight (trying bytes current) = 0
weight (holding bytes) = bytes

-- How many bytes the threads hold.
abbrev pub held : List Thread → ℕ
held [] = 0
held (t ∷ ts) = weight t + held ts
