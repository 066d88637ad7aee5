-- ===== src/Coverage/Zooms.antt =====
-- lib/download_coverage.cpp: the profiles that `addProfile` accepts.
use aowis_server_map.Prelude.{
  ℕ, zero, suc, ◌+◌, ◌-◌, ◌≤◌, ◌<◌, ◌≡◌, ◌≢◌, ◌↔◌, refl, sym, ap, subst, ◌∙◌, Bool, true, false,
  ◌||◌, Option, none, List, [], ◌∷◌, Text, All, is_empty, leb, ◌==◌, ==→eq, arith, Bool-cases, inl,
  inr,
}
use aowis_server_map.Prelude.Int.{ℤ, pos_part}
use aowis_server_map.Coverage.Profile.{
  Tier, DownloadCoverage, ProfileError, Checked, seen, failed, insert_profile, mark_range, all_seen,
  has_regions, bad_range, check_tier, check_tiers, insert_checked, add_profile,
}
use aowis_server_map.Coverage.Marks.{
  bit, in_tier, tiers_at, inside, Marked, mark_range-Marked, mark_range-seen,
}

-- The tests of a tier, said without the loops.
module _ {Region : Type 0} (c : DownloadCoverage Region) where
  pub record IsTier (t : Tier) : Type 0 where
    pub range : bad_range t ≡ false
    pub known : has_regions c t.regions ≡ true

  inside-in_tier :
      (k : ℕ) (t : Tier)
      → bad_range t ≡ false
      → inside k (pos_part t.minimum_zoom) (pos_part t.maximum_zoom + 1 - pos_part t.minimum_zoom)
        ≡ bit (in_tier k t)
  inside-in_tier k t h = go t.minimum_zoom t.maximum_zoom refl refl
    where
      go :
          (a b : ℤ)
          → t.minimum_zoom ≡ a
          → t.maximum_zoom ≡ b
          → inside k
              (pos_part t.minimum_zoom)
              (pos_part t.maximum_zoom + 1 - pos_part t.minimum_zoom)
            ≡ bit (in_tier k t)
      go a b ea eb = ground (arith, h)

  check_tier-Marked :
      (t : Tier) (s : ℕ → Bool)
      → IsTier t
      → ((k : ℕ) → bit (s k) + bit (in_tier k t) ≤ 1)
      → Marked s (λ k. bit (in_tier k t)) (check_tier c t s)
  unfolding check_tier
  check_tier-Marked t s i h =
      let low : ℕ = pos_part t.minimum_zoom in
      let left : ℕ = pos_part t.maximum_zoom + 1 - low in
      let m : Marked s (λ k. inside k low left) (mark_range left low s) =
        mark_range-Marked left low s (λ k. omega (arith, h k, inside-in_tier k t i.range)) in
      rw (i.range, i.known)
        (record {
          after = m.after;
          returned = m.returned;
          added = λ k. omega (arith, m.added k, inside-in_tier k t i.range);
        })

  check_tier-seen :
      (t : Tier) (s s' : ℕ → Bool)
      → check_tier c t s ≡ seen s'
      → IsTier t × ((k : ℕ) → bit (s' k) ≡ bit (s k) + bit (in_tier k t))
  unfolding check_tier
  check_tier-seen t s s' h = elim (Bool-cases (bad_range t)) [
    | inl e ↦ absurd (ground (arith, rw e at h))
    | inr e ↦ elim (Bool-cases (has_regions c t.regions)) [
      | inr f ↦ absurd (ground (arith, rw (e, f) at h))
      | inl f ↦
          let low : ℕ = pos_part t.minimum_zoom in
          let left : ℕ = pos_part t.maximum_zoom + 1 - low in
          let marked : mark_range left low s ≡ seen s' = rw (e, f) at h in
          (
            record { range = e; known = f },
            λ k. omega (arith, mark_range-seen left low s s' k marked, inside-in_tier k t e),
          )
    ]
  ]

  check_tiers-Marked :
      (tiers : List Tier) (s : ℕ → Bool)
      → All IsTier tiers
      → ((k : ℕ) → bit (s k) + tiers_at k tiers ≤ 1)
      → Marked s (λ k. tiers_at k tiers) (check_tiers c tiers (seen s))
  unfolding check_tiers
  check_tiers-Marked [] s i h = record { after = s; returned = refl; added = λ k. omega arith }
  check_tiers-Marked (t ∷ rest) s i h =
      let m : Marked s (λ k. bit (in_tier k t)) (check_tier c t s) =
        check_tier-Marked t s i.0 (λ k. omega (arith, h k)) in
      let n : Marked m.after (λ k. tiers_at k rest) (check_tiers c rest (seen m.after)) =
        check_tiers-Marked rest m.after i.1 (λ k. omega (arith, h k, m.added k)) in
      record {
        after = n.after;
        returned = ap (check_tiers c rest) m.returned ∙ n.returned;
        added = λ k. omega (arith, m.added k, n.added k);
      }

  check_tiers-seen :
      (tiers : List Tier) (o : Checked) (s' : ℕ → Bool)
      → check_tiers c tiers o ≡ seen s'
      → (s : ℕ → Bool) × (o ≡ seen s)
        × All IsTier tiers
        × ((k : ℕ) → bit (s' k) ≡ bit (s k) + tiers_at k tiers)
  unfolding check_tiers
  check_tiers-seen tiers (failed e) s' h = absurd (ground (arith, h))
  check_tiers-seen [] (seen s) s' h = (s, refl, tt, λ k. same k h)
    where
      same : (k : ℕ) → seen s ≡ seen s' → bit (s' k) ≡ bit (s k) + 0
      same k h = ground (arith, h)
  check_tiers-seen (t ∷ rest) (seen s) s' h =
      let (m, at, others, added) = check_tiers-seen rest (check_tier c t s) s' h in
      let (tier, more) = check_tier-seen t s m at in
      (s, refl, (tier, others), λ k. omega (arith, added k, more k))

all_seen-each : (n : ℕ) (s : ℕ → Bool) (z : ℕ) → z < n → all_seen n s ≡ true → s z ≡ true
unfolding all_seen
all_seen-each zero s z b h = absurd (omega (arith, b))
all_seen-each (suc n) s z b h = elim (Bool-cases (z == n)) [
  | inl e ↦
      let last : s n ≡ true = ground (arith, h) in subst (λ k. s k ≡ true) (sym (==→eq z n e)) last
  | inr e ↦ all_seen-each n s z (ground (arith, b, e)) (ground (arith, h))
]

each-all_seen : (n : ℕ) (s : ℕ → Bool) → ((z : ℕ) → z < n → s z ≡ true) → all_seen n s ≡ true
unfolding all_seen
each-all_seen zero s h = refl
each-all_seen (suc n) s h =
    let before : all_seen n s ≡ true = each-all_seen n s (λ z b. h z (omega (arith, b))) in
    let last : s n ≡ true = h n (omega arith) in rw (before, last) refl

-- A profile that may be added: it has a name and tiers, each tier has a range within 0 to 30 and
-- known regions, and each zoom from 0 to 30 is in exactly one tier.
pub record Partitions {Region : Type 0} (c : DownloadCoverage Region) (name : Text)
    (tiers : List Tier) : Type 0 where
  pub named : is_empty name ≡ false
  pub some_tiers : is_empty tiers ≡ false
  pub each_tier : All (IsTier c) tiers
  pub once : (z : ℕ) → z ≤ 30 → tiers_at z tiers ≡ 1

module _ {Region : Type 0} (c : DownloadCoverage Region) where
  abbrev Done : DownloadCoverage Region × Option ProfileError → Type 0
  Done (c', e) = e ≡ none

  inserted-seen :
      (name : Text) (tiers : List Tier) (o : Checked)
      → Done (insert_checked c name tiers o)
      → (s : ℕ → Bool) × (o ≡ seen s) × (all_seen 31 s ≡ true)
  unfolding insert_checked
  inserted-seen name tiers (failed e) h = absurd (ground (arith, h))
  inserted-seen name tiers (seen s) h = elim (Bool-cases (all_seen 31 s)) [
    | inl e ↦ (s, refl, e)
    | inr e ↦ absurd (ground (arith, rw e at h))
  ]

  -- No zoom above 30 is in a tier.
  tiers_at-above :
      (tiers : List Tier) (z : ℕ) → 30 < z → All (IsTier c) tiers → tiers_at z tiers ≡ 0
  tiers_at-above [] z b h = refl
  tiers_at-above (t ∷ rest) z b h =
      let out : bit (in_tier z t) ≡ 0 = outside t.minimum_zoom t.maximum_zoom refl refl in
      omega (arith, out, tiers_at-above rest z b h.1)
    where
      outside :
          (low high : ℤ) → t.minimum_zoom ≡ low → t.maximum_zoom ≡ high → bit (in_tier z t) ≡ 0
      outside low high a e = ground (arith, b, h.0.range)

  add_profile-Partitions :
      (name : Text) (tiers : List Tier) → Done (add_profile c name tiers) → Partitions c name tiers
  unfolding add_profile
  add_profile-Partitions name tiers h = elim (Bool-cases (is_empty name || is_empty tiers)) [
    | inl e ↦ absurd (ground (arith, rw e at h))
    | inr e ↦
        let (s, at, all) =
          inserted-seen name tiers (check_tiers c tiers (seen (λ k. false))) (rw e at h) in
        let (start, from, each, added) = check_tiers-seen c tiers (seen (λ k. false)) s at in
        record {
          named = ground (arith, e);
          some_tiers = ground (arith, e);
          each_tier = each;
          once = λ z b.
              ground
                (arith, all_seen-each 31 s z (omega (arith, b)) all, added z, nothing start z from);
        }
  ]
    where
      nothing : (start : ℕ → Bool) (z : ℕ) → seen (λ k. false) ≡ seen start → bit (start z) ≡ 0
      nothing start z from = ground (arith, from)

  Partitions-add_profile :
      (name : Text) (tiers : List Tier)
      → Partitions c name tiers
      → add_profile c name tiers
        ≡ (record c { profiles = insert_profile name tiers c.profiles }, none)
  unfolding add_profile insert_checked
  Partitions-add_profile name tiers p =
      let m : Marked (λ k. false) (λ k. tiers_at k tiers)
          (check_tiers c tiers (seen (λ k. false))) =
        check_tiers-Marked c tiers (λ k. false) p.each_tier (λ k. at_most k) in
      let all : all_seen 31 m.after ≡ true =
        each-all_seen 31 m.after (λ z b. ground (arith, m.added z, p.once z (omega (arith, b)))) in
      rw (p.named, p.some_tiers) (ap (insert_checked c name tiers) m.returned ∙ rw all refl)
    where
      at_most : (k : ℕ) → 0 + tiers_at k tiers ≤ 1
      at_most k = elim (Bool-cases (leb k 30)) [
        | inl e ↦ omega (arith, p.once k (ground (arith, e)))
        | inr e ↦ omega (arith, tiers_at-above tiers k (ground (arith, e)) p.each_tier)
      ]

  -- A profile is added exactly if it has a name and tiers, each tier has a range within 0 to 30 and
  -- regions that are all known, and each zoom from 0 to 30 is in exactly one tier; and exactly then
  -- it is inserted under its name and nothing else changes.
  pub add_profile_iff :
      (name : Text) (tiers : List Tier)
      → ((add_profile c name tiers).1 ≡ none ↔ Partitions c name tiers)
        × ((add_profile c name tiers).1 ≡ none
            ↔ add_profile c name tiers
              ≡ (record c { profiles = insert_profile name tiers c.profiles }, none))
  add_profile_iff name tiers = (
    (add_profile-Partitions name tiers, λ p. ap (λ x. x.1) (Partitions-add_profile name tiers p)),
    (
      λ h. Partitions-add_profile name tiers (add_profile-Partitions name tiers h),
      λ e. ap (λ x. x.1) e,
    ),
  )

  -- A profile that is refused changes nothing.
  pub add_profile-refused :
      (name : Text) (tiers : List Tier)
      → (add_profile c name tiers).1 ≢ none
      → (add_profile c name tiers).0 ≡ c
  unfolding add_profile insert_checked
  add_profile-refused name tiers h = elim (Bool-cases (is_empty name || is_empty tiers)) [
    | inl e ↦ rw e refl
    | inr e ↦ rw e (checked (check_tiers c tiers (seen (λ k. false))) (rw e at h))
  ]
    where
      checked :
          (o : Checked)
          → (insert_checked c name tiers o).1 ≢ none
          → (insert_checked c name tiers o).0 ≡ c
      checked (failed e) h = refl
      checked (seen s) h = elim (Bool-cases (all_seen 31 s)) [
        | inl e ↦ absurd ((rw e at h) refl)
        | inr e ↦ rw e refl
      ]
