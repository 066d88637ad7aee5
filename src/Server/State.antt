-- ===== src/Server/State.antt =====
-- server/server.h: the members that the terrain requests share. The hashes for tiles, elevations and
-- grids are one list, whose keys begin with the registry. A promise and a cancellation token are
-- numbers that are given once; `R` is what a worker's result is answered with.
use aowis_server_map.Prelude.{
  ℕ, Bool, true, false, ◌&&◌, Option, none, some, List, [], ◌∷◌, ◌++◌, map, Text, eqb,
  if◌then◌else◌, ◌==◌,
}
use aowis_server_map.Prelude.Int.{ℤ, pos}
use aowis_server_map.Admission.Jobs.{TerrainAdmission}
use aowis_server_map.Admission.Bytes.{TerrainByteAdmission}
use aowis_server_map.Admission.Jobs
use aowis_server_map.Admission.Bytes

pub data Registry : Type 0 where
  tiles elevations grids map_tiles : Registry

pub record Key : Type 0 where
  pub registry : Registry
  pub text : Text

abbrev pub same_registry : Registry → Registry → Bool
same_registry tiles tiles = true
same_registry elevations elevations = true
same_registry grids grids = true
same_registry map_tiles map_tiles = true
same_registry _ _ = false

unfoldable pub same_key : Key → Key → Bool
same_key a b = same_registry a.registry b.registry && eqb a.text b.text

-- A job is in the remote pool, in the worker pool, or its callback is queued with the result.
pub data Phase (R : Type 0) : Type 0 where
  acquiring processing : Phase R
  delivering : R → Phase R

-- What the closures of a job capture; `bytes` is 0 but for a grid.
pub record Job (R : Type 0) : Type 0 where
  pub key : Key
  pub token : ℕ
  pub bytes : ℕ
  pub phase : Phase R

-- What a promise was finished with.
pub data Answer (R : Type 0) : Type 0 where
  outcome : R → Answer R
  disconnected stopping : Answer R

pub record State (R : Type 0) : Type 0 where
  pub maximum_pending_requests : ℤ
  -- `pending_terrain_tiles` and its like
  pub pending : List (Key × List ℕ)
  -- `tile_cancellations` and its like, and the tokens that hold `true`
  pub tokens : List (Key × ℕ)
  pub cancelled : List ℕ
  -- `terrain_waiter_sockets`
  pub sockets : List (ℕ × ℕ)
  -- `pending_terrain_tile_count`, which counts all three registries
  pub pending_count : ℤ
  pub admission : TerrainAdmission
  pub remote : TerrainAdmission
  pub grid_bytes : TerrainByteAdmission
  pub shutting_down : Bool
  pub jobs : List (Job R)
  -- The jobs of `submitTerrainJob` that have not ended.
  pub plain_jobs : ℕ
  -- The promises that are finished, in this order.
  pub answers : List (ℕ × Answer R)
  pub fresh : ℕ

unfoldable pub init : {R : Type 0} → ℤ → ℤ → ℤ → ℕ → State R
unfolding Jobs.init Bytes.init
init maximum_pending maximum_jobs maximum_remote maximum_bytes = record {
  maximum_pending_requests = maximum_pending;
  pending = [];
  tokens = [];
  cancelled = [];
  sockets = [];
  pending_count = pos 0;
  admission = Jobs.init maximum_jobs;
  remote = Jobs.init maximum_remote;
  grid_bytes = Bytes.init maximum_bytes;
  shutting_down = false;
  jobs = [];
  plain_jobs = 0;
  answers = [];
  fresh = 0;
}

-- `contains`, `value`, `take` and `insert` of a hash with such keys.
unfoldable pub contains_key {ℓ} : {V : Type ℓ} → Key → List (Key × V) → Bool
contains_key key [] = false
contains_key key ((k, v) ∷ rest) = if same_key k key then true else contains_key key rest

unfoldable pub value_of {ℓ} : {V : Type ℓ} → Key → List (Key × V) → Option V
value_of key [] = none
value_of key ((k, v) ∷ rest) = if same_key k key then some v else value_of key rest

unfoldable pub remove_key {ℓ} : {V : Type ℓ} → Key → List (Key × V) → List (Key × V)
remove_key key [] = []
remove_key key ((k, v) ∷ rest) = if same_key k key then rest else (k, v) ∷ remove_key key rest

-- `pending[key]` of a missing key is the empty list.
unfoldable pub waiters_of : Key → List (Key × List ℕ) → List ℕ
waiters_of key [] = []
waiters_of key ((k, ws) ∷ rest) = if same_key k key then ws else waiters_of key rest

-- `pending[key].append(promise)`
unfoldable pub append_waiter : Key → ℕ → List (Key × List ℕ) → List (Key × List ℕ)
append_waiter key promise [] = (key, promise ∷ []) ∷ []
append_waiter key promise ((k, ws) ∷ rest) =
    if same_key k key
    then (k, ws ++ (promise ∷ [])) ∷ rest
    else (k, ws) ∷ append_waiter key promise rest

unfoldable pub socket_of : ℕ → List (ℕ × ℕ) → Option ℕ
socket_of promise [] = none
socket_of promise ((p, socket) ∷ rest) =
    if p == promise then some socket else socket_of promise rest

-- `forgetTerrainWaiter`
unfoldable pub forget_waiter : ℕ → List (ℕ × ℕ) → List (ℕ × ℕ)
forget_waiter promise [] = []
forget_waiter promise ((p, socket) ∷ rest) =
    if p == promise then rest else (p, socket) ∷ forget_waiter promise rest

unfoldable pub forget_all : List ℕ → List (ℕ × ℕ) → List (ℕ × ℕ)
unfolding forget_waiter
forget_all [] sockets = sockets
forget_all (promise ∷ rest) sockets = forget_all rest (forget_waiter promise sockets)

-- `attachTerrainWaiter`, with the client's socket, if it is known.
unfoldable pub attach_waiter : ℕ → Option ℕ → List (ℕ × ℕ) → List (ℕ × ℕ)
attach_waiter promise none sockets = sockets
attach_waiter promise (some socket) sockets = (promise, socket) ∷ sockets

abbrev pub answer_all : {R : Type 0} → Answer R → List ℕ → List (ℕ × Answer R)
answer_all a promises = map (λ p. (p, a)) promises
