-- ===== src/Server/Admits.antt =====
-- server/server.cpp: what an admission leaves of the two counters of jobs.
use aowis_server_map.Prelude.{
  ℕ, ◌+◌, ◌≡◌, refl, subst, Bool, true, false, inl, inr, arith, Bool-cases,
}
use aowis_server_map.Prelude.Int.{ℤ}
use aowis_server_map.Admission.Jobs
use aowis_server_map.Admission.Jobs.Invariant.{Fits}
use aowis_server_map.Server.Submit.{Admitted, admit_overall, admit_job}
use aowis_server_map.Server.Slots.{Fits-try_acquire, release-try_acquire}

abbrev pub taken : Bool → ℕ
taken true = 1
taken false = 0

-- An admission takes one slot of each counter that it needs, or leaves both as they were.
pub data Admits (a r : Jobs.TerrainAdmission) (remote_job : Bool) (m mr : ℤ) (n k : ℕ)
    (x : Admitted) : Type 0 where
  admits :
      x.granted ≡ true
      → Fits m x.admission (n + 1)
      → Fits mr x.remote (k + taken remote_job)
      → Admits a r remote_job m mr n k x
  refuses : x.granted ≡ false → x.admission ≡ a → x.remote ≡ r → Admits a r remote_job m mr n k x

try_acquire-refused :
    (a : Jobs.TerrainAdmission) → (Jobs.try_acquire a).1 ≡ false → (Jobs.try_acquire a).0 ≡ a
unfolding Jobs.try_acquire
try_acquire-refused a h = ground (arith, h)

module _ (m mr : ℤ) (a r : Jobs.TerrainAdmission) (n k : ℕ) (fa : Fits m a n)
    (fr : Fits mr r k) where
  overall-Admits_local : Admits a r false m mr n k (admit_overall a r false)
  unfolding admit_overall
  overall-Admits_local = elim (Bool-cases (Jobs.try_acquire a).1) [
    | inl e ↦
        rw e
          (admits refl (rw e at (Fits-try_acquire m a n fa)) (subst (Fits mr r) (omega arith) fr))
    | inr e ↦ rw e (refuses refl (try_acquire-refused a e) refl)
  ]

  overall-Admits_remote :
      (Jobs.try_acquire r).1 ≡ true
      → Admits a r true m mr n k (admit_overall a (Jobs.try_acquire r).0 true)
  unfolding admit_overall
  overall-Admits_remote g = elim (Bool-cases (Jobs.try_acquire a).1) [
    | inl e ↦
        rw e
          (admits refl (rw e at (Fits-try_acquire m a n fa)) (rw g at (Fits-try_acquire mr r k fr)))
    | inr e ↦ rw e (refuses refl (try_acquire-refused a e) (release-try_acquire mr r k fr g))
  ]

  pub admit_job-Admits :
      (remote_job : Bool) → Admits a r remote_job m mr n k (admit_job a r remote_job)
  unfolding admit_job
  admit_job-Admits false = overall-Admits_local
  admit_job-Admits true = elim (Bool-cases (Jobs.try_acquire r).1) [
    | inl g ↦ rw g (overall-Admits_remote g)
    | inr g ↦ rw g (refuses refl refl (try_acquire-refused r g))
  ]
