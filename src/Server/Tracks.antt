-- ===== src/Server/Tracks.antt =====
-- server/server.cpp: a token that a key has lost, or that was given, as the events go on.
use aowis_server_map.Prelude.{
  ℕ, zero, suc, ◌<◌, ◌≤◌, ◌≡◌, refl, some, List, [], ◌∷◌, ◌++◌, All, arith, ◌⊎◌, inl, inr,
}
use aowis_server_map.Prelude.Int.{ℤ}
use aowis_server_map.Server.State.{Key, Phase, Job, State, init, value_of}
use aowis_server_map.Server.Work.{change, delete, Event, run}
use aowis_server_map.Server.Tokens.{
  Without, Placed, Placed-remove_key, Without-remove_key, Placed-launch, value_of-Single,
  Issued-Without, Issued-remove_key, Issued-later,
}
use aowis_server_map.Server.Moves.{Moves, stays, goes_on, ends, forgets, launches, both}
use aowis_server_map.Server.Steps.{run-Moves}

module _ {R : Type 0} where
  every :
      {P Q : Job R → Type 0} (js : List (Job R)) → ((j : Job R) → P j → Q j) → All P js → All Q js
  every [] f h = tt
  every (j ∷ js) f h = (f j h.0, every js f h.1)

  -- The key and the token of a job are what the closures of its stages captured.
  abbrev Each : (Key → ℕ → Type 0) → List (Job R) → Type 0
  Each P js = All (λ j. P j.key j.token) js

  Each-change :
      (P : Key → ℕ → Type 0) (n : ℕ) (phase : Phase R) (js : List (Job R))
      → Each P js
      → Each P (change n phase js)
  Each-change P n phase [] h = tt
  Each-change P zero phase (j ∷ js) h = h
  Each-change P (suc n) phase (j ∷ js) h = (h.0, Each-change P n phase js h.1)

  Each-delete :
      (P : Key → ℕ → Type 0) (n : ℕ) (js : List (Job R)) → Each P js → Each P (delete n js)
  Each-delete P n [] h = tt
  Each-delete P zero (j ∷ js) h = h.1
  Each-delete P (suc n) (j ∷ js) h = (h.0, Each-delete P n js h.1)

  Each-append :
      (P : Key → ℕ → Type 0) (js : List (Job R)) (j : Job R)
      → Each P js
      → P j.key j.token
      → Each P (js ++ (j ∷ []))
  Each-append P [] j h last = (last, tt)
  Each-append P (k ∷ js) j h last = (h.0, Each-append P js j h.1 last)

  -- A token that was given and that no key has is never the token of a key again.
  record Dead (t : ℕ) (s : State R) : Type 0 where
    given : t < s.fresh
    absent : Without t s.tokens

  Moves-Dead : (t : ℕ) (s s' : State R) → Moves s s' → Dead t s → Dead t s'
  Moves-Dead t s s' (stays _ _ ts js f) d = record {
    given = omega (arith, f, d.given);
    absent = rw ts d.absent;
  }
  Moves-Dead t s s' (goes_on _ _ n phase ts js f) d = record {
    given = rw f d.given;
    absent = rw ts d.absent;
  }
  Moves-Dead t s s' (ends _ _ n ts js f) d = record {
    given = rw f d.given;
    absent = rw ts d.absent;
  }
  Moves-Dead t s s' (forgets _ _ key ts js f) d = record {
    given = rw f d.given;
    absent = rw ts (Without-remove_key t key s.tokens d.absent);
  }
  Moves-Dead t s s' (launches _ _ j token ts js f) d = record {
    given = omega (arith, f, d.given);
    absent = rw ts (ground (arith, d.given), Without-remove_key t j.key s.tokens d.absent);
  }
  Moves-Dead t s s' (both _ m _ a b) d = Moves-Dead t m s' b (Moves-Dead t s m a d)

  -- Every token was given, and the token of a job is that of its key alone, or of no key.
  abbrev PlacedIn : State R → Key → ℕ → Type 0
  PlacedIn s key t = (t < s.fresh) × Placed s.tokens key t

  pub record Tracks (s : State R) : Type 0 where
    pub issued : All (λ e. e.1 < s.fresh) s.tokens
    pub placed : Each (PlacedIn s) s.jobs

  same-Tracks :
      (s s' : State R)
      → s'.tokens ≡ s.tokens
      → s.fresh ≤ s'.fresh
      → Each (PlacedIn s) s'.jobs
      → Tracks s
      → Tracks s'
  same-Tracks s s' ts f js v = record {
    issued = rw ts (Issued-later s.fresh s'.fresh s.tokens f v.issued);
    placed = every s'.jobs (λ j h. (omega (arith, f, h.0), rw ts h.1)) js;
  }

  Moves-Tracks : (s s' : State R) → Moves s s' → Tracks s → Tracks s'
  Moves-Tracks s s' (stays _ _ ts js f) v = same-Tracks s s' ts f (rw js v.placed) v
  Moves-Tracks s s' (goes_on _ _ n phase ts js f) v =
      same-Tracks s s' ts (omega (arith, f))
        (rw js (Each-change (PlacedIn s) n phase s.jobs v.placed)) v
  Moves-Tracks s s' (ends _ _ n ts js f) v =
      same-Tracks s s' ts (omega (arith, f)) (rw js (Each-delete (PlacedIn s) n s.jobs v.placed)) v
  Moves-Tracks s s' (forgets _ _ key ts js f) v = record {
    issued = rw (ts, f) (Issued-remove_key s.fresh key s.tokens v.issued);
    placed = rw js (
        every s.jobs (λ j h. (rw f h.0, rw ts (Placed-remove_key j.token j.key key s.tokens h.1)))
          v.placed);
  }
  Moves-Tracks s s' (launches _ _ j token ts js f) v =
      let kept = Issued-remove_key s.fresh j.key s.tokens v.issued in
      record {
        issued = rw ts (omega (arith, f), Issued-later s.fresh s'.fresh _ (omega (arith, f)) kept);
        placed = rw js (
            Each-append (PlacedIn s') s.jobs j
              (every s.jobs
                (λ k h. (
                  omega (arith, f, h.0),
                  rw ts (Placed-launch k.token s.fresh k.key j.key s.tokens h.0 h.1),
                ))
                v.placed)
              (
                omega (arith, token, f),
                rw (ts, token) (inl (inl (refl, refl, Issued-Without s.fresh _ kept))),
              ));
      }
  Moves-Tracks s s' (both _ m _ a b) v = Moves-Tracks m s' b (Moves-Tracks s m a v)

  pub run-Tracks :
      (maximum_pending maximum_jobs maximum_remote : ℤ) (maximum_bytes : ℕ)
      (events : List (Event R))
      → Tracks (run (init maximum_pending maximum_jobs maximum_remote maximum_bytes) events)
  unfolding init
  run-Tracks maximum_pending maximum_jobs maximum_remote maximum_bytes events =
      Moves-Tracks _ _ (run-Moves events _) (record { issued = tt; placed = tt })

  -- From a state to a later one: each job that is in flight has the token of its key, or a token that
  -- no key has later.
  abbrev pub Lasting : State R → State R → Type 0
  Lasting s s' =
      All (λ j. (value_of j.key s.tokens ≡ some j.token) ⊎ Without j.token s'.tokens) s.jobs

  pub Moves-Lasting : (s s' : State R) → Moves s s' → Tracks s → Lasting s s'
  Moves-Lasting s s' m v =
      every s.jobs
        (λ j h. elim h.1 [
          | inl single ↦ inl (value_of-Single j.token j.key s.tokens single)
          | inr none_has ↦
              inr (Moves-Dead j.token s s' m (record { given = h.0; absent = none_has })).absent
        ])
        v.placed
