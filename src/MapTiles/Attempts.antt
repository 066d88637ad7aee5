-- ===== src/MapTiles/Attempts.antt =====
-- lib/http_client_tilefetch.cpp: the attempts of Windows.
use aowis_server_map.Prelude.{
  ℕ, ◌≡◌, ◌↔◌, refl, ap, ◌∙◌, Bool, true, false, ◌||◌, some, Bytes, arith, ◌⊎◌, inl, inr,
  Bool-cases,
}
use aowis_server_map.Platform.Strings.{Strings}
use aowis_server_map.MapTiles.HttpClient.{
  cancelled, NetworkError, no_error, timeout_error, operation_canceled_error, other_error, Reply,
  Signal, request_finished, request_error, is_timeout_error, is_canceled_error, handle_reply,
  Handled, signalled, attempted, handle_reply_windows, get_attempt,
}
use aowis_server_map.MapTiles.Accepts.{BringsTile, handle_reply_iff}

-- A reply that was aborted or failed for its time.
abbrev pub TimedOut : Reply → Type 0
TimedOut reply =
    (reply.too_large ≡ false)
    × ((reply.overall_timeout ≡ true)
        ⊎ (reply.error ≡ timeout_error)
        ⊎ (reply.error ≡ operation_canceled_error))

abbrev times_out : Reply → Bool
times_out reply =
    reply.overall_timeout || is_timeout_error reply.error || is_canceled_error reply.error

timeout→ :
    (e : NetworkError)
    → is_timeout_error e || is_canceled_error e ≡ true
    → (e ≡ timeout_error) ⊎ (e ≡ operation_canceled_error)
timeout→ no_error h = ground (arith, h)
timeout→ timeout_error h = inl refl
timeout→ operation_canceled_error h = inr refl
timeout→ other_error h = ground (arith, h)

times_out_iff :
    (reply : Reply) → reply.too_large ≡ false → (times_out reply ≡ true) ↔ TimedOut reply
times_out_iff reply small = (λ h. (small, to h), λ t. from t.1)
  where
    to :
        times_out reply ≡ true
        → (reply.overall_timeout ≡ true)
          ⊎ (reply.error ≡ timeout_error)
          ⊎ (reply.error ≡ operation_canceled_error)
    to h = elim (Bool-cases reply.overall_timeout) [
      | inl e ↦ inl e
      | inr e ↦ inr (timeout→ reply.error (ground (arith, h, e)))
    ]

    from :
        (reply.overall_timeout ≡ true)
          ⊎ (reply.error ≡ timeout_error)
          ⊎ (reply.error ≡ operation_canceled_error)
        → times_out reply ≡ true
    from t = ground (arith, t)

Handled-cases :
    (x : Handled)
    → ((signal : Signal) × (x ≡ signalled signal)) ⊎ ((next : ℕ) × (x ≡ attempted next))
Handled-cases (signalled signal) = inl (signal, refl)
Handled-cases (attempted next) = inr (next, refl)

module _ (strings : Strings) where
  -- What the two branches have in common.
  windows_agrees :
      (c : Bool) (reply : Reply) (n : ℕ)
      → times_out reply ≡ false
      → handle_reply_windows strings c reply true n ≡ signalled (handle_reply strings c reply true)
  unfolding handle_reply_windows handle_reply
  windows_agrees c reply n t = ground (arith, t)

  windows_finished :
      (c : Bool) (reply : Reply) (n : ℕ) (content : Bytes) (store : Bool)
      → handle_reply_windows strings c reply true n ≡ signalled (request_finished content store)
      → (c ≡ false) × BringsTile strings reply content store
  windows_finished c reply n content store h =
      let t : times_out reply ≡ false = unfold handle_reply_windows in ground (arith, h) in
      (handle_reply_iff strings c reply content store).0 (cc (windows_agrees c reply n t))

  windows_brings :
      (c : Bool) (reply : Reply) (n : ℕ) (content : Bytes) (store : Bool)
      → c ≡ false
      → BringsTile strings reply content store
      → handle_reply_windows strings c reply true n ≡ signalled (request_finished content store)
  windows_brings c reply n content store before b =
      windows_agrees c reply n (ground (arith, b.in_time, b.no_failure))
      ∙ ap signalled ((handle_reply_iff strings c reply content store).1 (before, b))

  windows_retries :
      (c : Bool) (reply : Reply) (next : ℕ)
      → handle_reply_windows strings c reply true 0 ≡ attempted next
      → (c ≡ false) × (reply.too_large ≡ false) × (times_out reply ≡ true) × (next ≡ 1)
  unfolding handle_reply_windows
  windows_retries c reply next h = ground (arith, h)

  windows_retry :
      (c : Bool) (reply : Reply)
      → c ≡ false
      → reply.too_large ≡ false
      → times_out reply ≡ true
      → handle_reply_windows strings c reply true 0 ≡ attempted 1
  unfolding handle_reply_windows
  windows_retry c reply e small t = ground (arith, e, small, t)

  windows_last :
      (c : Bool) (reply : Reply)
      → (signal : Signal) × (handle_reply_windows strings c reply true 1 ≡ signalled signal)
  windows_last c reply = elim (Handled-cases (handle_reply_windows strings c reply true 1)) [
    | inl found ↦ found
    | inr (next, h) ↦ absurd (unfold handle_reply_windows in ground (arith, h))
  ]

  second :
      (before after : ℕ → Bool) (replies : ℕ → Reply)
      → (signal : Signal) × (get_attempt strings 1 before after replies 1 ≡ some signal)
  unfolding get_attempt
  second before after replies = elim (Bool-cases (before 1)) [
    | inl e ↦ (request_error cancelled, rw (e, get_attempt) refl)
    | inr e ↦
        let last = windows_last (after 1) (replies 1) in (last.0, rw (e, last.1, get_attempt) refl)
  ]

  -- With two attempts a result is reached, whatever the replies.
  get_attempt_ends :
      (before after : ℕ → Bool) (replies : ℕ → Reply)
      → (signal : Signal) × (get_attempt strings 2 before after replies 0 ≡ some signal)
  unfolding get_attempt
  get_attempt_ends before after replies = elim (Bool-cases (before 0)) [
    | inl e ↦ (request_error cancelled, rw (e, get_attempt) refl)
    | inr e ↦ elim (Handled-cases (handle_reply_windows strings (after 0) (replies 0) true 0)) [
      | inl (signal, h) ↦ (signal, rw (e, h, get_attempt) refl)
      | inr (next, h) ↦
          let retried = windows_retries (after 0) (replies 0) next h in
          let last = second before after replies in
          (last.0, rw (e, h, get_attempt) (rw retried.3 last.1))
    ]
  ]

  -- The tile that an attempt brings, with no cancellation before it or before its reply.
  abbrev pub BringsAt : (ℕ → Bool) → (ℕ → Bool) → (ℕ → Reply) → ℕ → Bytes → Bool → Type 0
  BringsAt before after replies n content store =
      (before n ≡ false) × (after n ≡ false) × BringsTile strings (replies n) content store

  second_iff :
      (before after : ℕ → Bool) (replies : ℕ → Reply) (content : Bytes) (store : Bool)
      → (get_attempt strings 1 before after replies 1 ≡ some (request_finished content store))
        ↔ BringsAt before after replies 1 content store
  unfolding get_attempt
  second_iff before after replies content store = (to, from)
    where
      to :
          get_attempt strings 1 before after replies 1 ≡ some (request_finished content store)
          → BringsAt before after replies 1 content store
      to h = elim (Bool-cases (before 1)) [
        | inl e ↦ absurd (ground (arith, rw (e, get_attempt) at h))
        | inr e ↦
            let last = windows_last (after 1) (replies 1) in
            let same : last.0 ≡ request_finished content store =
              ground (arith, rw (e, last.1, get_attempt) at h) in
            let found =
              windows_finished (after 1) (replies 1) 1 content store (last.1 ∙ ap signalled same) in
            (e, found.0, found.1)
      ]

      from :
          BringsAt before after replies 1 content store
          → get_attempt strings 1 before after replies 1 ≡ some (request_finished content store)
      from (e, a, b) =
          rw (e, windows_brings (after 1) (replies 1) 1 content store a b, get_attempt) refl

  -- On Windows a request ends after two attempts at most, whatever the replies; and it ends with a tile
  -- exactly if the first reply brings it, or the first attempt timed out and the second brings it, and
  -- the client was not cancelled on the way.
  pub get_attempt_iff :
      (before after : ℕ → Bool) (replies : ℕ → Reply) (content : Bytes) (store : Bool)
      → ((signal : Signal) × (get_attempt strings 2 before after replies 0 ≡ some signal))
        × ((get_attempt strings 2 before after replies 0 ≡ some (request_finished content store))
            ↔ (BringsAt before after replies 0 content store
                ⊎ ((before 0 ≡ false)
                    × (after 0 ≡ false)
                    × TimedOut (replies 0)
                    × BringsAt before after replies 1 content store)))
  unfolding get_attempt
  get_attempt_iff before after replies content store =
      (get_attempt_ends before after replies, (to, from))
    where
      to :
          get_attempt strings 2 before after replies 0 ≡ some (request_finished content store)
          → BringsAt before after replies 0 content store
            ⊎ ((before 0 ≡ false)
                × (after 0 ≡ false)
                × TimedOut (replies 0)
                × BringsAt before after replies 1 content store)
      to h = elim (Bool-cases (before 0)) [
        | inl e ↦ absurd (ground (arith, rw (e, get_attempt) at h))
        | inr e ↦ elim (Handled-cases (handle_reply_windows strings (after 0) (replies 0) true 0)) [
          | inl (signal, w) ↦
              let same : signal ≡ request_finished content store =
                ground (arith, rw (e, w, get_attempt) at h) in
              let found =
                windows_finished (after 0) (replies 0) 0 content store (w ∙ ap signalled same) in
              inl (e, found.0, found.1)
          | inr (next, w) ↦
              let retried = windows_retries (after 0) (replies 0) next w in
              let again = rw (e, w, get_attempt) at h in
              inr (
                e,
                retried.0,
                (times_out_iff (replies 0) retried.1).0 retried.2,
                (second_iff before after replies content store).0 (rw retried.3 at again),
              )
        ]
      ]

      from :
          BringsAt before after replies 0 content store
            ⊎ ((before 0 ≡ false)
                × (after 0 ≡ false)
                × TimedOut (replies 0)
                × BringsAt before after replies 1 content store)
          → get_attempt strings 2 before after replies 0 ≡ some (request_finished content store)
      from (inl (e, a, b)) =
          rw (e, windows_brings (after 0) (replies 0) 0 content store a b, get_attempt) refl
      from (inr (e, a, t, later)) =
          rw
            (
              e,
              windows_retry (after 0) (replies 0) a t.0 ((times_out_iff (replies 0) t.0).1 t),
              get_attempt,
            )
            ((second_iff before after replies content store).1 later)
