-- ===== src/Admission/Bytes/Linear.antt =====
-- server/terrain_byte_admission.h: each step of a thread is one atomic call, or changes nothing.
use aowis_server_map.Prelude.{ℕ, ◌≡◌, refl, ◌⊎◌, inl, inr, Bool, Option, none, some, arith}
use aowis_server_map.Admission.Bytes.{
  TerrainByteAdmission, try_acquire, release, Thread, idle, trying, holding, Action, load, exchange,
  leave, Outcome, test_current, enter, compare_exchange, step, CanProceed,
}

-- A returned value is the one that `try_acquire` gives at the moment of the step for the amount
-- that the thread asks for, with the counter that it leaves; any other step leaves the counter
-- alone, or is `release`.
abbrev pub Linearizes : TerrainByteAdmission → Thread → Action → Outcome → Option Bool → Type 0
Linearizes a t action o none =
    (o.admission ≡ a)
    ⊎ ((bytes : ℕ) × (t ≡ holding bytes) × (o.thread ≡ idle) × (o.admission ≡ release a bytes))
Linearizes a (holding bytes) action o (some r) = ⊥
Linearizes a (trying bytes current) action o (some r) = try_acquire a bytes ≡ (o.admission, r)
Linearizes a idle (load bytes) o (some r) = try_acquire a bytes ≡ (o.admission, r)
Linearizes a idle _ o (some r) = ⊥

-- A step of one thread; one that is in its loop must hold a value that left room for its amount.
pub byte_step-Linearizes :
    (a : TerrainByteAdmission) (t : Thread) (action : Action)
    → CanProceed a.maximum_bytes t
    → Linearizes a t action (step a t action) (step a t action).returned
unfolding step try_acquire test_current enter compare_exchange
byte_step-Linearizes a idle (load bytes) h = ground arith
byte_step-Linearizes a (trying bytes current) (exchange spurious) h = ground arith
byte_step-Linearizes a (holding bytes) leave h = inr (bytes, refl, refl, refl)
byte_step-Linearizes a t _ h = inl refl
