-- ===== src/Server/Waiters.antt =====
-- server/server.cpp: the loops of `abandonTerrainWaiters` over the waiters and the keys, and the tests
-- on tokens and sockets.
use aowis_server_map.Prelude.{
  ℕ, Bool, false, ◌||◌, Option, none, some, List, [], ◌∷◌, ◌++◌, if◌then◌else◌, ◌==◌, is_empty,
}
use aowis_server_map.Server.State.{Key, socket_of, forget_waiter}

abbrev pub holds : ℕ → List ℕ → Bool
holds token [] = false
holds token (t ∷ ts) = t == token || holds token ts

abbrev pub is_current : ℕ → Option ℕ → Bool
is_current token none = false
is_current token (some t) = t == token

-- The loop over the waiters of a key, from the last one: those that stay, those that are dropped in
-- their order, and the sockets that are left.
pub record Parted : Type 0 where
  pub kept : List ℕ
  pub dropped : List ℕ
  pub left : List (ℕ × ℕ)

abbrev pub is_socket : ℕ → Option ℕ → Bool
is_socket socket none = false
is_socket socket (some s) = s == socket

unfoldable pub part_waiters : ℕ → List ℕ → List (ℕ × ℕ) → Parted
unfolding socket_of forget_waiter
part_waiters socket [] sockets = record { kept = []; dropped = []; left = sockets }
part_waiters socket (p ∷ ps) sockets =
    let rest = part_waiters socket ps sockets in
    if is_socket socket (socket_of p rest.left)
    then record {
      kept = rest.kept;
      dropped = rest.dropped ++ (p ∷ []);
      left = forget_waiter p rest.left;
    }
    else record { kept = p ∷ rest.kept; dropped = rest.dropped; left = rest.left }

-- The same for all keys, and the keys that are left without a waiter.
pub record Swept : Type 0 where
  pub flights : List (Key × List ℕ)
  pub orphans : List Key
  pub gone : List ℕ
  pub still : List (ℕ × ℕ)

unfoldable pub sweep : ℕ → List (Key × List ℕ) → List (ℕ × ℕ) → Swept
unfolding part_waiters
sweep socket [] sockets = record { flights = []; orphans = []; gone = []; still = sockets }
sweep socket ((k, ws) ∷ rest) sockets =
    let here = part_waiters socket ws sockets in
    let more = sweep socket rest here.left in
    record {
      flights = (k, here.kept) ∷ more.flights;
      orphans = if is_empty here.kept then k ∷ more.orphans else more.orphans;
      gone = here.dropped ++ more.gone;
      still = more.still;
    }

unfoldable pub cancel_token : Option ℕ → List ℕ → List ℕ
cancel_token none cancelled = cancelled
cancel_token (some t) cancelled = t ∷ cancelled
