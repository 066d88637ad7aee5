-- ===== src/Admission/Jobs/Invariant.antt =====
-- server/terrain_admission.h: the counter counts the admitted jobs, on every schedule.
use aowis_server_map.Prelude.{
  ℕ, zero, suc, ◌+◌, ◌≡◌, refl, sym, ap, subst, ◌⊎◌, inl, inr, Bool, true, false, List, [], ◌∷◌,
  All, arith, Bool-cases,
}
use aowis_server_map.Prelude.Int.{ℤ, pos, ◌+ℤ◌, ◌-ℤ◌, ltb_ℤ, ◌≤ℤ◌}
use aowis_server_map.Admission.Jobs.{
  TerrainAdmission, init, Thread, idle, trying, holding, Action, load, exchange, leave, Outcome,
  test_current, same, compare_exchange, release, step, CanProceed, System, advance, run, all_idle,
  weight, holders,
}
use aowis_server_map.Admission.Jobs.Linear.{same→eq, ltb→below, Linearizes, step-Linearizes}

-- `n` jobs are admitted: the counter says so, and they fit the maximum `m`.
pub record Fits (m : ℤ) (a : TerrainAdmission) (n : ℕ) : Type 0 where
  pub maximum : a.maximum_jobs ≡ m
  pub counted : a.outstanding ≡ pos n
  pub bounded : (n ≡ 0) ⊎ (pos n ≤ℤ m)

Fits-cong : (m : ℤ) (a : TerrainAdmission) (j k : ℕ) → j ≡ k → Fits m a j → Fits m a k
Fits-cong m a j k e h = subst (Fits m a) e h

record Keeps (m : ℤ) (others : ℕ) (o : Outcome) : Type 0 where
  fits : Fits m o.admission (others + weight o.thread)
  proceed : CanProceed m o.thread

module _ (m : ℤ) (a : TerrainAdmission) (others : ℕ) where
  test_current-Keeps : Fits m a (others + 0) → Keeps m others (test_current a a.outstanding)
  unfolding test_current
  test_current-Keeps h = elim (Bool-cases (ltb_ℤ a.outstanding a.maximum_jobs)) [
    | inl e ↦ rw e (record {
      fits = h;
      proceed = subst (λ k. pos 1 +ℤ a.outstanding ≤ℤ k) h.maximum (ltb→below _ _ e);
    })
    | inr e ↦ rw e (record { fits = h; proceed = tt })
  ]

  acquired-Keeps :
      (current : ℤ)
      → Fits m a (others + 0)
      → CanProceed m (trying current)
      → a.outstanding ≡ current
      → Fits m (record a { outstanding = current +ℤ pos 1 }) (others + 1)
  unfolding ◌+ℤ◌
  acquired-Keeps current h p e = record {
    maximum = h.maximum;
    counted = ground (arith, h.counted, e);
    bounded = inr (ground (arith, h.counted, e, p));
  }

  exchange-Keeps :
      (current : ℤ) (spurious : Bool)
      → Fits m a (others + 0)
      → CanProceed m (trying current)
      → Keeps m others (compare_exchange a current spurious)
  unfolding compare_exchange
  exchange-Keeps current true h p = test_current-Keeps h
  exchange-Keeps current false h p = elim (Bool-cases (same a.outstanding current)) [
    | inl e ↦ rw e (record { fits = acquired-Keeps current h p (same→eq _ _ e); proceed = tt })
    | inr e ↦ rw e (test_current-Keeps h)
  ]

  leave-Keeps : Fits m a (others + 1) → Fits m (release a) (others + 0)
  unfolding release ◌-ℤ◌
  leave-Keeps h = record {
    maximum = h.maximum;
    counted = ground (arith, h.counted);
    bounded = ground (arith, h.bounded);
  }

  step-Keeps :
      (t : Thread) (action : Action)
      → Fits m a (others + weight t)
      → CanProceed m t
      → Keeps m others (step a t action)
  unfolding step
  step-Keeps idle load h p = test_current-Keeps h
  step-Keeps (trying current) (exchange spurious) h p = exchange-Keeps current spurious h p
  step-Keeps holding leave h p = record { fits = leave-Keeps h; proceed = tt }
  step-Keeps t _ h p = record { fits = h; proceed = p }

advance-Keeps :
    (m : ℤ) (others : ℕ) (a : TerrainAdmission) (ts : List Thread) (n : ℕ) (action : Action)
    → Fits m a (others + holders ts)
    → All (CanProceed m) ts
    → Fits m (advance a ts n action).0 (others + holders (advance a ts n action).1)
      × All (CanProceed m) (advance a ts n action).1
unfolding advance
advance-Keeps m others a [] n action h p = (h, p)
advance-Keeps m others a (t ∷ ts) zero action h p =
    let k = step-Keeps m a (others + holders ts) t action (Fits-cong m a _ _ (omega arith) h) p.0 in
    (Fits-cong m _ _ _ (omega arith) k.fits, (k.proceed, p.1))
advance-Keeps m others a (t ∷ ts) (suc n) action h p =
    let k =
      advance-Keeps m (others + weight t) a ts n action (Fits-cong m a _ _ (omega arith) h) p.1 in
    (Fits-cong m _ _ _ (omega arith) k.0, (p.0, k.1))

run-Keeps :
    (m : ℤ) (schedule : List (ℕ × Action)) (s : System)
    → Fits m s.admission (holders s.threads)
    → All (CanProceed m) s.threads
    → Fits m (run s schedule).admission (holders (run s schedule).threads)
      × All (CanProceed m) (run s schedule).threads
unfolding run
run-Keeps m [] s h p = (h, p)
run-Keeps m ((n, action) ∷ rest) s h p =
    let k =
      advance-Keeps m 0 s.admission s.threads n action (Fits-cong m _ _ _ (omega arith) h) p in
    run-Keeps m rest _ (Fits-cong m _ _ _ (omega arith) k.0) k.1

all_idle-Keeps : (m : ℤ) (n : ℕ) → (holders (all_idle n) ≡ 0) × All (CanProceed m) (all_idle n)
unfolding all_idle
all_idle-Keeps m zero = (refl, tt)
all_idle-Keeps m (suc n) = let k = all_idle-Keeps m n in (omega (arith, k.0), (tt, k.1))

started-Keeps :
    (m : ℤ) (n : ℕ) (schedule : List (ℕ × Action))
    → let s = run (record { admission = init m; threads = all_idle n }) schedule in
      Fits m s.admission (holders s.threads) × All (CanProceed m) s.threads
unfolding init
started-Keeps m n schedule =
    let k = all_idle-Keeps m n in
    run-Keeps m schedule _
      (record { maximum = refl; counted = ap pos (sym k.0); bounded = inl k.0 }) k.1

-- Threads that start outside the call, on any schedule of their loads, exchanges (some of which may
-- fail without cause) and releases: the maximum stays what it was, the counter is the number of
-- threads that hold an admitted job, and that number is 0 or at most the maximum.
pub run-counts :
    (m : ℤ) (n : ℕ) (schedule : List (ℕ × Action))
    → let s = run (record { admission = init m; threads = all_idle n }) schedule in
      Fits m s.admission (holders s.threads)
run-counts m n schedule = (started-Keeps m n schedule).0

all-Linearizes :
    (a : TerrainAdmission) (action : Action) (ts : List Thread)
    → All (CanProceed a.maximum_jobs) ts
    → All (λ t. Linearizes a t (step a t action) (step a t action).returned) ts
all-Linearizes a action [] p = tt
all-Linearizes a action (t ∷ ts) p =
    (step-Linearizes a t action p.0, all-Linearizes a action ts p.1)

-- Threads that start outside the call, on any schedule of their loads, exchanges (some of which may
-- fail without cause) and releases: whichever thread goes on, with whichever access, either returns
-- from the call what the atomic call would return at that moment, with the counter that it would
-- leave, or releases its job, or returns nothing and leaves the counter alone.
pub run-Linearizes :
    (m : ℤ) (n : ℕ) (schedule : List (ℕ × Action)) (action : Action)
    → let s = run (record { admission = init m; threads = all_idle n }) schedule in
      All
        (λ t.
          Linearizes s.admission t (step s.admission t action) (step s.admission t action).returned)
        s.threads
run-Linearizes m n schedule action =
    let s : System = run (record { admission = init m; threads = all_idle n }) schedule in
    let k = started-Keeps m n schedule in
    all-Linearizes s.admission action s.threads
      (subst (λ j. All (CanProceed j) s.threads) (sym (k.0).maximum) k.1)
