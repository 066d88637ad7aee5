-- ===== src/Admission/Bytes/Invariant.antt =====
-- server/terrain_byte_admission.h: the counter is the number of reserved bytes, on every schedule.
use aowis_server_map.Prelude.{
  ℕ, zero, suc, ◌+◌, ◌^◌, ◌<◌, ◌≤◌, ◌≡◌, refl, sym, subst, List, [], ◌∷◌, All, arith,
}
use aowis_server_map.Admission.Bytes.{
  TerrainByteAdmission, init, release, Thread, idle, trying, holding, Action, load, exchange, leave,
  Outcome, test_current, enter, compare_exchange, step, CanProceed, System, advance, run, all_idle,
  weight, held,
}
use aowis_server_map.Admission.Bytes.Linear.{Linearizes, byte_step-Linearizes}

-- `n` bytes are reserved: the counter says so, and they fit the maximum `m`.
pub record Fits (m : ℕ) (a : TerrainByteAdmission) (n : ℕ) : Type 0 where
  pub maximum : a.maximum_bytes ≡ m
  pub counted : a.reserved ≡ n
  pub bounded : n ≤ m

Fits-cong : (m : ℕ) (a : TerrainByteAdmission) (j k : ℕ) → j ≡ k → Fits m a j → Fits m a k
Fits-cong m a j k e h = subst (Fits m a) e h

record Keeps (m : ℕ) (others : ℕ) (o : Outcome) : Type 0 where
  fits : Fits m o.admission (others + weight o.thread)
  proceed : CanProceed m o.thread

module _ (m : ℕ) (word : m < 2 ^ 64) (a : TerrainByteAdmission) (others : ℕ) where
  step-Keeps :
      (t : Thread) (action : Action)
      → Fits m a (others + weight t)
      → CanProceed m t
      → Keeps m others (step a t action)
  unfolding step test_current enter compare_exchange release
  step-Keeps idle (load bytes) h p = ground arith
  step-Keeps (trying bytes current) (exchange spurious) h p = ground arith
  step-Keeps (holding bytes) leave h p = ground arith
  step-Keeps t _ h p = record { fits = h; proceed = p }

module _ (m : ℕ) (word : m < 2 ^ 64) where
  advance-Keeps :
      (others : ℕ) (a : TerrainByteAdmission) (ts : List Thread) (n : ℕ) (action : Action)
      → Fits m a (others + held ts)
      → All (CanProceed m) ts
      → Fits m (advance a ts n action).0 (others + held (advance a ts n action).1)
        × All (CanProceed m) (advance a ts n action).1
  unfolding advance
  advance-Keeps others a [] n action h p = (h, p)
  advance-Keeps others a (t ∷ ts) zero action h p =
      let k =
        step-Keeps m word a (others + held ts) t action (Fits-cong m a _ _ (omega arith) h) p.0 in
      (Fits-cong m _ _ _ (omega arith) k.fits, (k.proceed, p.1))
  advance-Keeps others a (t ∷ ts) (suc n) action h p =
      let k =
        advance-Keeps (others + weight t) a ts n action (Fits-cong m a _ _ (omega arith) h) p.1 in
      (Fits-cong m _ _ _ (omega arith) k.0, (p.0, k.1))

  run-Keeps :
      (schedule : List (ℕ × Action)) (s : System)
      → Fits m s.admission (held s.threads)
      → All (CanProceed m) s.threads
      → Fits m (run s schedule).admission (held (run s schedule).threads)
        × All (CanProceed m) (run s schedule).threads
  unfolding run
  run-Keeps [] s h p = (h, p)
  run-Keeps ((n, action) ∷ rest) s h p =
      let k =
        advance-Keeps 0 s.admission s.threads n action (Fits-cong m _ _ _ (omega arith) h) p in
      run-Keeps rest _ (Fits-cong m _ _ _ (omega arith) k.0) k.1

all_idle-Keeps : (m : ℕ) (n : ℕ) → (held (all_idle n) ≡ 0) × All (CanProceed m) (all_idle n)
unfolding all_idle
all_idle-Keeps m zero = (refl, tt)
all_idle-Keeps m (suc n) = let k = all_idle-Keeps m n in (omega (arith, k.0), (tt, k.1))

started-Keeps :
    (m : ℕ) (n : ℕ) (schedule : List (ℕ × Action))
    → m < 2 ^ 64
    → let s = run (record { admission = init m; threads = all_idle n }) schedule in
      Fits m s.admission (held s.threads) × All (CanProceed m) s.threads
unfolding init
started-Keeps m n schedule word =
    let k = all_idle-Keeps m n in
    run-Keeps m word schedule _
      (record { maximum = refl; counted = sym k.0; bounded = omega (arith, k.0) }) k.1

-- Threads that start outside the call, on any schedule of their calls for any amounts, their
-- exchanges (some of which may fail without cause) and their releases: if the maximum fits 64 bits,
-- it stays what it was, the counter is the sum of the bytes that the threads hold, and that sum is
-- at most the maximum.
pub run-reserves :
    (m : ℕ) (n : ℕ) (schedule : List (ℕ × Action))
    → m < 2 ^ 64
    → let s = run (record { admission = init m; threads = all_idle n }) schedule in
      Fits m s.admission (held s.threads)
run-reserves m n schedule word = (started-Keeps m n schedule word).0

all-Linearizes :
    (a : TerrainByteAdmission) (action : Action) (ts : List Thread)
    → All (CanProceed a.maximum_bytes) ts
    → All (λ t. Linearizes a t action (step a t action) (step a t action).returned) ts
all-Linearizes a action [] p = tt
all-Linearizes a action (t ∷ ts) p =
    (byte_step-Linearizes a t action p.0, all-Linearizes a action ts p.1)

-- Threads that start outside the call, on any schedule of their calls for any amounts, their
-- exchanges (some of which may fail without cause) and their releases, where the maximum fits 64
-- bits: whichever thread goes on, with whichever access, either returns from the call what the atomic
-- call for its amount would return at that moment, with the counter that it would leave, or releases
-- its bytes, or returns nothing and leaves the counter alone.
pub byte_run-Linearizes :
    (m : ℕ) (n : ℕ) (schedule : List (ℕ × Action)) (action : Action)
    → m < 2 ^ 64
    → let s = run (record { admission = init m; threads = all_idle n }) schedule in
      All
        (λ t.
          Linearizes s.admission t action
            (step s.admission t action)
            (step s.admission t action).returned)
        s.threads
byte_run-Linearizes m n schedule action word =
    let s : System = run (record { admission = init m; threads = all_idle n }) schedule in
    let k = started-Keeps m n schedule word in
    all-Linearizes s.admission action s.threads
      (subst (λ j. All (CanProceed j) s.threads) (sym (k.0).maximum) k.1)
