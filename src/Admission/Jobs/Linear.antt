-- ===== src/Admission/Jobs/Linear.antt =====
-- server/terrain_admission.h: each step of a thread is one atomic call, or changes nothing.
use aowis_server_map.Prelude.{
  ◌≡◌, refl, sym, subst, Bool, true, false, Option, none, some, arith, ◌⊎◌, inl, inr, Bool-cases,
}
use aowis_server_map.Prelude.Int.{ℤ, pos, ◌+ℤ◌, ltb_ℤ, ◌≤ℤ◌}
use aowis_server_map.Admission.Jobs.{
  TerrainAdmission, try_acquire, release, Thread, idle, trying, holding, Action, load, exchange,
  leave, Outcome, test_current, same, compare_exchange, step, CanProceed,
}

pub same→eq : (a b : ℤ) → same a b ≡ true → a ≡ b
unfolding same
same→eq a b h = ground arith

-- Every returned value is the one that `try_acquire` gives at the moment of the step, with the
-- counter that it leaves; any other step leaves the counter alone, or is `release`.
abbrev pub Linearizes : TerrainAdmission → Thread → Outcome → Option Bool → Type 0
Linearizes a t o none =
    (o.admission ≡ a) ⊎ ((t ≡ holding) × (o.thread ≡ idle) × (o.admission ≡ release a))
Linearizes a t o (some r) = try_acquire a ≡ (o.admission, r)

pub below→ltb : (a b : ℤ) → pos 1 +ℤ a ≤ℤ b → ltb_ℤ a b ≡ true
unfolding ◌+ℤ◌
below→ltb a b h = ground arith

pub ltb→below : (a b : ℤ) → ltb_ℤ a b ≡ true → pos 1 +ℤ a ≤ℤ b
unfolding ◌+ℤ◌
ltb→below a b h = ground arith

pub try_acquire-room :
    (a : TerrainAdmission)
    → ltb_ℤ a.outstanding a.maximum_jobs ≡ true
    → try_acquire a ≡ (record a { outstanding = a.outstanding +ℤ pos 1 }, true)
unfolding try_acquire
try_acquire-room a h = rw h

pub try_acquire-full :
    (a : TerrainAdmission) → ltb_ℤ a.outstanding a.maximum_jobs ≡ false → try_acquire a ≡ (a, false)
unfolding try_acquire
try_acquire-full a h = rw h

test_current-Linearizes :
    (a : TerrainAdmission) (t : Thread)
    → Linearizes a t (test_current a a.outstanding) (test_current a a.outstanding).returned
unfolding test_current try_acquire
test_current-Linearizes a t = elim (Bool-cases (ltb_ℤ a.outstanding a.maximum_jobs)) [
  | inl h ↦ rw h (inl refl)
  | inr h ↦ rw h (try_acquire-full a h)
]

exchange-Linearizes :
    (a : TerrainAdmission) (current : ℤ) (spurious : Bool)
    → CanProceed a.maximum_jobs (trying current)
    → Linearizes a
        (trying current)
        (compare_exchange a current spurious)
        (compare_exchange a current spurious).returned
unfolding compare_exchange
exchange-Linearizes a current true h = test_current-Linearizes a (trying current)
exchange-Linearizes a current false h = elim (Bool-cases (same a.outstanding current)) [
  | inl e ↦ rw e (acquired (same→eq _ _ e))
  | inr e ↦ rw e (test_current-Linearizes a (trying current))
]
  where
    acquired :
        a.outstanding ≡ current
        → try_acquire a ≡ (record a { outstanding = current +ℤ pos 1 }, true)
    acquired e =
        rw (← e)
          (try_acquire-room a (below→ltb _ _ (subst (λ c. pos 1 +ℤ c ≤ℤ a.maximum_jobs) (sym e) h)))

-- A step of one thread; one that is in its loop must hold a value below the maximum.
pub step-Linearizes :
    (a : TerrainAdmission) (t : Thread) (action : Action)
    → CanProceed a.maximum_jobs t
    → Linearizes a t (step a t action) (step a t action).returned
unfolding step
step-Linearizes a idle load h = test_current-Linearizes a idle
step-Linearizes a (trying current) (exchange spurious) h = exchange-Linearizes a current spurious h
step-Linearizes a holding leave h = inr (refl, refl, refl)
step-Linearizes a t _ h = inl refl
