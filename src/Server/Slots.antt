-- ===== src/Server/Slots.antt =====
-- server/server.cpp: the admission counters count the jobs by their stage, and the grids' bytes.
use aowis_server_map.Prelude.{
  ℕ, zero, suc, ◌+◌, ◌^◌, ◌<◌, ◌≡◌, true, some, List, [], ◌∷◌, ◌++◌, inl, inr, if◌then◌else◌, arith,
  Bool-cases,
}
use aowis_server_map.Prelude.Int.{ℤ, ltb_ℤ, ◌+ℤ◌, ◌-ℤ◌}
use aowis_server_map.Admission.Jobs
use aowis_server_map.Admission.Bytes
use aowis_server_map.Admission.Jobs.Invariant.{Fits}
use aowis_server_map.Admission.Bytes.Invariant
use aowis_server_map.Server.State.{Phase, acquiring, processing, delivering, Job}
use aowis_server_map.Server.Work.{nth, change, delete}

-- The jobs of which a counter holds a slot: all until they have a result, and those that may download.
abbrev pub overall_slots : {R : Type 0} → Phase R → ℕ
overall_slots acquiring = 1
overall_slots processing = 1
overall_slots (delivering r) = 0

abbrev pub remote_slots : {R : Type 0} → Phase R → ℕ
remote_slots acquiring = 1
remote_slots processing = 0
remote_slots (delivering r) = 0

module _ {R : Type 0} where
  abbrev pub sum_jobs : (Job R → ℕ) → List (Job R) → ℕ
  sum_jobs f [] = 0
  sum_jobs f (j ∷ js) = f j + sum_jobs f js

  pub sum_jobs-append :
      (f : Job R → ℕ) (js : List (Job R)) (j : Job R)
      → sum_jobs f (js ++ (j ∷ [])) ≡ sum_jobs f js + f j
  sum_jobs-append f [] j = omega arith
  sum_jobs-append f (k ∷ js) j = omega (arith, sum_jobs-append f js j)

  pub sum_jobs-change :
      (f : Job R → ℕ) (n : ℕ) (phase : Phase R) (js : List (Job R)) (j : Job R)
      → nth n js ≡ some j
      → sum_jobs f (change n phase js) + f j ≡ sum_jobs f js + f (record j { phase = phase })
  sum_jobs-change f n phase [] j h = ground (arith, h)
  sum_jobs-change f zero phase (k ∷ js) j h = ground (arith, h)
  sum_jobs-change f (suc n) phase (k ∷ js) j h = omega (arith, sum_jobs-change f n phase js j h)

  pub sum_jobs-delete :
      (f : Job R → ℕ) (n : ℕ) (js : List (Job R)) (j : Job R)
      → nth n js ≡ some j
      → sum_jobs f (delete n js) + f j ≡ sum_jobs f js
  sum_jobs-delete f n [] j h = ground (arith, h)
  sum_jobs-delete f zero (k ∷ js) j h = ground (arith, h)
  sum_jobs-delete f (suc n) (k ∷ js) j h = omega (arith, sum_jobs-delete f n js j h)

pub Fits-try_acquire :
    (m : ℤ) (a : Jobs.TerrainAdmission) (n : ℕ)
    → Fits m a n
    → Fits m (Jobs.try_acquire a).0 (if (Jobs.try_acquire a).1 then n + 1 else n)
unfolding Jobs.try_acquire ◌+ℤ◌
Fits-try_acquire m a n h = elim (Bool-cases (ltb_ℤ a.outstanding a.maximum_jobs)) [
  | inl e ↦ rw e (record {
    maximum = h.maximum;
    counted = ground (arith, h.counted);
    bounded = inr (ground (arith, h.counted, h.maximum, e));
  })
  | inr e ↦ rw e h
]

pub Fits-release :
    (m : ℤ) (a : Jobs.TerrainAdmission) (n k : ℕ)
    → k ≡ n + 1
    → Fits m a k
    → Fits m (Jobs.release a) n
unfolding Jobs.release ◌-ℤ◌
Fits-release m a n k e h = record {
  maximum = h.maximum;
  counted = ground (arith, h.counted, e);
  bounded = ground (arith, h.bounded, e);
}

-- A slot that is taken and given back leaves the counter as it was.
pub release-try_acquire :
    (m : ℤ) (a : Jobs.TerrainAdmission) (n : ℕ)
    → Fits m a n
    → (Jobs.try_acquire a).1 ≡ true
    → Jobs.release (Jobs.try_acquire a).0 ≡ a
unfolding Jobs.try_acquire Jobs.release ◌+ℤ◌ ◌-ℤ◌
release-try_acquire m a n h e = ground (arith, h.counted, e)

pub Fits-try_reserve :
    (m : ℕ) (a : Bytes.TerrainByteAdmission) (n bytes : ℕ)
    → m < 2 ^ 64
    → Bytes.Invariant.Fits m a n
    → Bytes.Invariant.Fits m
        (Bytes.try_acquire a bytes).0
        (if (Bytes.try_acquire a bytes).1 then n + bytes else n)
unfolding Bytes.try_acquire
Fits-try_reserve m a n bytes w h = ground (arith, w, h.maximum, h.counted, h.bounded)

pub Fits-release_bytes :
    (m : ℕ) (a : Bytes.TerrainByteAdmission) (n k bytes : ℕ)
    → m < 2 ^ 64
    → k ≡ n + bytes
    → Bytes.Invariant.Fits m a k
    → Bytes.Invariant.Fits m (Bytes.release a bytes) n
unfolding Bytes.release
Fits-release_bytes m a n k bytes w e h = ground (arith, w, e, h.maximum, h.counted, h.bounded)

pub release-try_reserve :
    (m : ℕ) (a : Bytes.TerrainByteAdmission) (n bytes : ℕ)
    → m < 2 ^ 64
    → Bytes.Invariant.Fits m a n
    → (Bytes.try_acquire a bytes).1 ≡ true
    → Bytes.release (Bytes.try_acquire a bytes).0 bytes ≡ a
unfolding Bytes.try_acquire Bytes.release
release-try_reserve m a n bytes w h e = ground (arith, w, h.maximum, h.counted, h.bounded, e)
