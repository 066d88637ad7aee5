-- ===== src/Server/Attended.antt =====
-- server/server.cpp: the keys that wait, their tokens and their jobs.
use aowis_server_map.Prelude.{
  ℕ, zero, suc, ◌≡◌, refl, sym, ap, subst, ◌∙◌, Bool, true, false, Option, some, List, [], ◌∷◌,
  ◌++◌, ◌⊎◌, inl, inr, arith, Bool-cases,
}
use aowis_server_map.Server.State.{
  Key, same_key, Phase, Job, State, contains_key, value_of, remove_key, append_waiter,
}
use aowis_server_map.Server.Submit.{join, launch}
use aowis_server_map.Server.Work.{nth, change, delete}
use aowis_server_map.Server.Counts.{same_key→eq, same_key_flip, Distinct, append_waiter-Distinct}

pub value_of-remove_key :
    {V : Type 0} (key other : Key) (l : List (Key × V))
    → same_key other key ≡ false
    → value_of key (remove_key other l) ≡ value_of key l
unfolding value_of remove_key
value_of-remove_key key other [] h = refl
value_of-remove_key key other ((k, v) ∷ l) h = elim (Bool-cases (same_key k other)) [
  | inl e ↦
      let apart : same_key k key ≡ false =
        subst (λ o. same_key o key ≡ false) (sym (same_key→eq k other e)) h in
      rw (e, apart) refl
  | inr e ↦ rw (e, value_of-remove_key key other l h) refl
]

contains_key-append_waiter :
    (key other : Key) (p : ℕ) (l : List (Key × List ℕ))
    → same_key other key ≡ false
    → contains_key key (append_waiter other p l) ≡ contains_key key l
unfolding contains_key append_waiter
contains_key-append_waiter key other p [] h = rw h refl
contains_key-append_waiter key other p ((k, ws) ∷ l) h =
    ground (arith, contains_key-append_waiter key other p l h)

contains_key-append_waiter_old :
    (key other : Key) (p : ℕ) (l : List (Key × List ℕ))
    → contains_key other l ≡ true
    → contains_key key (append_waiter other p l) ≡ contains_key key l
unfolding contains_key append_waiter
contains_key-append_waiter_old key other p [] h = ground (arith, h)
contains_key-append_waiter_old key other p ((k, ws) ∷ l) h =
    ground (arith, h, contains_key-append_waiter_old key other p l)

-- Of distinct keys, a removed one is no longer there.
pub contains_key-remove_key :
    (key other : Key) (l : List (Key × List ℕ))
    → Distinct l
    → contains_key key (remove_key other l) ≡ true
    → (same_key other key ≡ false) × (contains_key key l ≡ true)
unfolding contains_key remove_key
contains_key-remove_key key other [] d h = ground (arith, h)
contains_key-remove_key key other ((k, ws) ∷ l) d h = elim (Bool-cases (same_key k other)) [
  | inl e ↦
      let there : contains_key key l ≡ true = rw e at h in
      let same : k ≡ other = same_key→eq k other e in
      (
        elim (Bool-cases (same_key other key)) [
          | inl f ↦
              let there' : contains_key k l ≡ true =
                subst (λ o. contains_key o l ≡ true) (sym (same ∙ same_key→eq other key f)) there in
              absurd (ground (arith, there', d.0))
          | inr f ↦ f
        ],
        ground (arith, there),
      )
  | inr e ↦ elim (Bool-cases (same_key k key)) [
    | inl f ↦ (
      subst (λ o. same_key other o ≡ false) (same_key→eq k key f) (same_key_flip k other e),
      rw f refl,
    )
    | inr f ↦
        let (apart, there) = contains_key-remove_key key other l d.1 (rw (e, f) at h) in
        (apart, rw f there)
  ]
]

module _ {R : Type 0} where
  -- A job of the key with the token.
  abbrev pub HasJob : Key → ℕ → List (Job R) → Type 0
  HasJob key t [] = ⊥
  HasJob key t (j ∷ js) = ((j.key ≡ key) × (j.token ≡ t)) ⊎ HasJob key t js

  pub record Attends (key : Key) (tokens : List (Key × ℕ)) (jobs : List (Job R)) : Type 0 where
    pub token : ℕ
    pub current : value_of key tokens ≡ some token
    pub job : HasJob key token jobs

  -- The keys that wait are distinct, and each has a current token with a job in flight.
  pub record Attended (s : State R) : Type 0 where
    pub distinct : Distinct s.pending
    pub attends : (key : Key) → contains_key key s.pending ≡ true → Attends key s.tokens s.jobs

  HasJob-append :
      (key : Key) (t : ℕ) (js ks : List (Job R)) → HasJob key t js → HasJob key t (js ++ ks)
  HasJob-append key t [] ks h = absurd h
  HasJob-append key t (j ∷ js) ks (inl h) = inl h
  HasJob-append key t (j ∷ js) ks (inr h) = inr (HasJob-append key t js ks h)

  HasJob-last : (js : List (Job R)) (j : Job R) → HasJob j.key j.token (js ++ (j ∷ []))
  HasJob-last [] j = inl (refl, refl)
  HasJob-last (k ∷ js) j = inr (HasJob-last js j)

  pub HasJob-change :
      (key : Key) (t n : ℕ) (phase : Phase R) (js : List (Job R))
      → HasJob key t js
      → HasJob key t (change n phase js)
  HasJob-change key t n phase [] h = h
  HasJob-change key t zero phase (j ∷ js) h = h
  HasJob-change key t (suc n) phase (j ∷ js) (inl h) = inl h
  HasJob-change key t (suc n) phase (j ∷ js) (inr h) = inr (HasJob-change key t n phase js h)

  pub HasJob-delete :
      (key : Key) (t n : ℕ) (js : List (Job R)) (j : Job R)
      → nth n js ≡ some j
      → ((j.key ≡ key) → (j.token ≡ t) → ⊥)
      → HasJob key t js
      → HasJob key t (delete n js)
  HasJob-delete key t n [] j at other h = h
  HasJob-delete key t zero (k ∷ js) j at other (inr h) = h
  HasJob-delete key t zero (k ∷ js) j at other (inl h) =
      let same : k ≡ j = ground (arith, at) in
      absurd (other (ap (λ x. Job.key x) (sym same) ∙ h.0) (ap (λ x. Job.token x) (sym same) ∙ h.1))
  HasJob-delete key t (suc n) (k ∷ js) j at other (inl h) = inl h
  HasJob-delete key t (suc n) (k ∷ js) j at other (inr h) =
      inr (HasJob-delete key t n js j at other h)

  pub join-Attended :
      (s : State R) (key : Key) (socket : Option ℕ)
      → contains_key key s.pending ≡ true
      → Attended s
      → Attended (join s key socket)
  unfolding join
  join-Attended s key socket there v = record {
    distinct = append_waiter-Distinct key s.fresh s.pending v.distinct;
    attends =
        λ q h. v.attends q (sym (contains_key-append_waiter_old q key s.fresh s.pending there) ∙ h);
  }

  pub launch-Attended :
      (s : State R) (key : Key) (remote_job : Bool) (bytes : ℕ) (socket : Option ℕ)
      → Attended s
      → Attended (launch s key remote_job bytes socket)
  unfolding launch join value_of
  launch-Attended s key remote_job bytes socket v = record {
    distinct = append_waiter-Distinct key s.fresh s.pending v.distinct;
    attends = λ q h. elim (Bool-cases (same_key key q)) [
      | inl e ↦ record {
        token = s.fresh;
        current = rw e refl;
        job =
            subst (λ k. HasJob k s.fresh (launch s key remote_job bytes socket).jobs)
              (same_key→eq key q e) (HasJob-last s.jobs _);
      }
      | inr e ↦
          let old = v.attends q (sym (contains_key-append_waiter q key s.fresh s.pending e) ∙ h) in
          record {
            token = old.token;
            current = rw e (value_of-remove_key q key s.tokens e ∙ old.current);
            job = HasJob-append q old.token s.jobs _ old.job;
          }
    ];
  }
